-- ===== src/Ledger/Account/Posting.antt =====
-- core/modules/ledger/domain/aggregate/ledger_account_aggregate.go: what an event that carries a
-- valid posting does to the account.
use wechat_clone.Base.{
  ◌≡◌, refl, ◌⊎◌, String, false, some, none, [], ◌∷◌, ◌++◌, arith, ◌==◌, eq_iff,
}
use wechat_clone.Base.Text.{trim_space}
use wechat_clone.Base.Results.{Result, ok, err, ◌>>=◌}
use wechat_clone.Event.{new_event, apply_change}
use wechat_clone.Ledger.Posting.{
  LedgerError, LedgerAccountPosting, LedgerEvent, payment_event, transferred_to_account,
  received_transfer, other_event, new_transfer_out_posting, new_transfer_in_posting, kind_name,
  PaymentKind, deposit_from_intent,
}
use wechat_clone.Ledger.Posting.Normal.{IsNormal, normalize_of_IsNormal}
use wechat_clone.Ledger.Events.{event_name, preview_posting_from_event}
use wechat_clone.Ledger.Account.{
  LedgerAccountState, LedgerAccountAggregate, ensure_posting_allowed, post, apply_normalized,
  apply_posting, apply_result, apply_event_posting, transition_data, transition, change_account,
}

-- The account has no owner yet, or is the account of that identifier.
abbrev pub IsOwnedBy : LedgerAccountState → String → Type 0
IsOwnedBy s id = (s.account_id ≡ "") ⊎ (s.account_id ≡ id)

kind_name_given : (k : PaymentKind) → (kind_name k == "") ≡ false
kind_name_given deposit_from_intent = refl
kind_name_given _ = refl

event_name_given :
    (id : String) (e : LedgerEvent) (p : LedgerAccountPosting)
    → preview_posting_from_event id e ≡ ok (some p)
    → (event_name e == "") ≡ false
unfolding event_name preview_posting_from_event
event_name_given id (payment_event k payload) p h = kind_name_given k
event_name_given id (transferred_to_account payload) p h = refl
event_name_given id (received_transfer payload) p h = refl
event_name_given id (other_event name) p h = cc

module _ (s : LedgerAccountState) (id : String) (p : LedgerAccountPosting)
    (trimmed : trim_space id ≡ id) (normal : IsNormal id p) (owned : IsOwnedBy s id)
    (allowed : ensure_posting_allowed s p ≡ none) where
  apply_normalized_posts : apply_normalized s id p ≡ (post s id p, none)
  unfolding apply_normalized
  apply_normalized_posts = ground (arith, eq_iff s.account_id "", eq_iff s.account_id id)

  apply_posting_posts : apply_posting s id p ≡ (post s id p, none)
  unfolding apply_posting
  apply_posting_posts =
      rw (normalize_of_IsNormal id p trimmed normal, apply_posting) (apply_normalized_posts)

  apply_result_posts :
      (r : Result LedgerError LedgerAccountPosting)
      → (r >>= λ x. ok (some x)) ≡ ok (some p)
      → apply_result s id r ≡ (post s id p, none)
  unfolding apply_result
  apply_result_posts (err x) h = cc
  apply_result_posts (ok x) h = let same : x ≡ p = cc in rw same apply_posting_posts

  -- The transition on such an event posts, and raises no error.
  transition_data_posts :
      (e : LedgerEvent)
      → preview_posting_from_event id e ≡ ok (some p)
      → transition_data s id e ≡ (post s id p, none)
  unfolding transition_data apply_event_posting
  transition_data_posts (payment_event k payload) h =
      rw (h, apply_event_posting) apply_posting_posts
  transition_data_posts (transferred_to_account payload) h =
      apply_result_posts (new_transfer_out_posting id payload)
        (unfold preview_posting_from_event in h)
  transition_data_posts (received_transfer payload) h =
      apply_result_posts (new_transfer_in_posting id payload)
        (unfold preview_posting_from_event in h)
  transition_data_posts (other_event name) h = absurd (unfold preview_posting_from_event in cc)

module _ (a : LedgerAccountAggregate) (p : LedgerAccountPosting) (e : LedgerEvent) where
  -- The account after the event has been applied to it.
  abbrev pub with_posting : LedgerAccountAggregate
  with_posting = record {
    root = record (a.root) { events = a.root.events ++ (new_event event_name a.root e ∷ []) };
    state = post a.state a.root.aggregate_id p;
  }

  -- ApplyChange on such an event appends it and posts.
  pub change_account_posts :
      trim_space a.root.aggregate_id ≡ a.root.aggregate_id
      → IsNormal a.root.aggregate_id p
      → IsOwnedBy a.state a.root.aggregate_id
      → ensure_posting_allowed a.state p ≡ none
      → preview_posting_from_event a.root.aggregate_id e ≡ ok (some p)
      → change_account a (some e) ≡ (with_posting, none)
  unfolding change_account apply_change transition new_event
  change_account_posts t n o al h =
      rw (n.account_given, event_name_given a.root.aggregate_id e p h)
        (rw (transition_data_posts a.state a.root.aggregate_id p t n o al e h))
