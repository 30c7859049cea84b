-- ===== src/Ledger/Account/Settles.antt =====
-- core/modules/ledger/domain/aggregate/ledger_account_aggregate.go: each command posts one event,
-- or leaves the account as it was.
use wechat_clone.Base.{
  ◌≡◌, refl, ap, sym, ◌∙◌, inl, inr, Bool, true, false, Option, some, none, Bool-cases,
  Option-cases, if◌then◌else◌,
}
use wechat_clone.Base.Text.{trim_space}
use wechat_clone.Base.Maps.{lookup}
use wechat_clone.Base.Results.{Result, ok, err}
use wechat_clone.Ledger.Posting.{LedgerError, LedgerAccountPosting, LedgerEvent, normalized}
use wechat_clone.Ledger.Posting.Normal.{IsNormal}
use wechat_clone.Ledger.Events.{preview_posting_from_event, same_posting}
use wechat_clone.Ledger.Account.{
  LedgerAccountAggregate, lookup_pending_posting, ensure_posting_allowed, record_posting,
  change_account,
}
use wechat_clone.Ledger.Account.Posting.{IsOwnedBy, with_posting, change_account_posts}
use wechat_clone.Ledger.Account.Commands.{Command, run, IsTyped}
use wechat_clone.Ledger.Account.Shape.{run-Shape, rejects, records}

-- Between two calls: the aggregate's identifier is trimmed, and the account is its own.
pub record IsWellFormed (a : LedgerAccountAggregate) : Type 0 where
  pub trimmed : trim_space a.root.aggregate_id ≡ a.root.aggregate_id
  pub owned : IsOwnedBy a.state a.root.aggregate_id

-- The account `b` is `a` with the posting `p` booked, by an event `e` that carries it: the
-- transaction was new to `a`, and its funds allowed the posting.
pub record Books (a : LedgerAccountAggregate) (p : LedgerAccountPosting) (e : LedgerEvent)
    (b : LedgerAccountAggregate) : Type 0 where
  pub normal : IsNormal a.root.aggregate_id p
  pub fresh : lookup p.transaction_id a.state.posted_transactions ≡ none
  pub allowed : ensure_posting_allowed a.state p ≡ none
  pub carried : preview_posting_from_event a.root.aggregate_id e ≡ ok (some p)
  pub booked : b ≡ with_posting a p e

-- What a command returns, and what it has done.
abbrev pub Settles :
    LedgerAccountAggregate → LedgerAccountAggregate × Result LedgerError Bool → Type 0
Settles a (b, err _) = b ≡ a
Settles a (b, ok false) = b ≡ a
Settles a (b, ok true) = (p : LedgerAccountPosting) × (e : LedgerEvent) × Books a p e b

module _ (a : LedgerAccountAggregate) (p : LedgerAccountPosting) where
  pub record_posting_known :
      (old : LedgerAccountPosting) (mismatch : LedgerError) (c : Option LedgerEvent)
      → lookup_pending_posting a.state p.transaction_id ≡ some old
      → record_posting a p mismatch c ≡ (a, if same_posting old p then ok false else err mismatch)
  unfolding record_posting
  record_posting_known old mismatch c q = rw (q, record_posting)

  record_posting_refused :
      (mismatch : LedgerError) (c : Option LedgerEvent) (x : LedgerError)
      → lookup_pending_posting a.state p.transaction_id ≡ none
      → ensure_posting_allowed a.state p ≡ some x
      → record_posting a p mismatch c ≡ (a, err x)
  unfolding record_posting
  record_posting_refused mismatch c x q r = rw (q, r, record_posting)

  record_posting_changed :
      (mismatch : LedgerError) (e : LedgerEvent) {b : LedgerAccountAggregate}
      → lookup_pending_posting a.state p.transaction_id ≡ none
      → ensure_posting_allowed a.state p ≡ none
      → change_account a (some e) ≡ (b, none)
      → record_posting a p mismatch (some e) ≡ (b, ok true)
  unfolding record_posting
  record_posting_changed mismatch e q r s = rw (q, r, s, record_posting)

module _ (a : LedgerAccountAggregate) (w : IsWellFormed a) where
  lookup_fresh :
      (p : LedgerAccountPosting)
      → IsNormal a.root.aggregate_id p
      → lookup_pending_posting a.state p.transaction_id ≡ none
      → lookup p.transaction_id a.state.posted_transactions ≡ none
  unfolding lookup_pending_posting normalized
  lookup_fresh p n h =
      let t : trim_space p.transaction_id ≡ p.transaction_id =
        ap (λ (q : LedgerAccountPosting). q.transaction_id) n.fixed in
      let r = rw (t, n.transaction_given) at h in r

  record_posting-Settles :
      (p : LedgerAccountPosting) (mismatch : LedgerError) (e : LedgerEvent)
      → IsNormal a.root.aggregate_id p
      → preview_posting_from_event a.root.aggregate_id e ≡ ok (some p)
      → Settles a (record_posting a p mismatch (some e))
  record_posting-Settles p mismatch e n c =
      elim (Option-cases (lookup_pending_posting a.state p.transaction_id)) [
        | inr (old, q) ↦
            rw (record_posting_known a p old mismatch (some e) q)
              (elim (Bool-cases (same_posting old p)) [ inl s ↦ rw s refl | inr s ↦ rw s refl ])
        | inl q ↦ elim (Option-cases (ensure_posting_allowed a.state p)) [
          | inr (x, r) ↦ rw (record_posting_refused a p mismatch (some e) x q r) refl
          | inl r ↦
              rw
                (record_posting_changed a p mismatch e q r
                  (change_account_posts a p e w.trimmed n w.owned r c))
                (
                  p,
                  e,
                  record {
                    normal = n;
                    fresh = lookup_fresh p n q;
                    allowed = r;
                    carried = c;
                    booked = refl;
                  },
                )
        ]
      ]

  -- What a recording that returns true has done.
  pub record_posting-Books :
      (p : LedgerAccountPosting) (mismatch : LedgerError) (e : LedgerEvent)
      (b : LedgerAccountAggregate)
      → IsNormal a.root.aggregate_id p
      → preview_posting_from_event a.root.aggregate_id e ≡ ok (some p)
      → record_posting a p mismatch (some e) ≡ (b, ok true)
      → Books a p e b
  record_posting-Books p mismatch e b n c done =
      elim (Option-cases (lookup_pending_posting a.state p.transaction_id)) [
        | inr (old, q) ↦ absurd (
            known (same_posting old p)
              (sym (record_posting_known a p old mismatch (some e) q) ∙ done))
        | inl q ↦ elim (Option-cases (ensure_posting_allowed a.state p)) [
          | inr (x, r) ↦
              absurd (cc (sym (record_posting_refused a p mismatch (some e) x q r) ∙ done))
          | inl r ↦
              let same : b ≡ with_posting a p e = cc (
                sym (
                  record_posting_changed a p mismatch e q r
                    (change_account_posts a p e w.trimmed n w.owned r c))
                ∙ done) in
              record {
                normal = n;
                fresh = lookup_fresh p n q;
                allowed = r;
                carried = c;
                booked = same;
              }
        ]
      ]
    where
      known :
          (t : Bool)
          → ◌≡◌ {A = LedgerAccountAggregate × Result LedgerError Bool}
              (a, if t then ok false else err mismatch)
              (b, ok true)
          → ⊥
      known true h = cc
      known false h = cc

-- Every command of a well-formed account settles: where it returns an error, or returns false
-- since the transaction is posted already, the account is as before (no event is pending that was
-- not); where it returns true, exactly one event is pending more, and the state is the old one
-- with the posting of that event booked, whose transaction was new and whose amount was allowed.
pub run-Settles :
    (c : Command) (a : LedgerAccountAggregate) → IsWellFormed a → IsTyped c → Settles a (run c a)
run-Settles c a w v = elim (run-Shape a.root.aggregate_id w.trimmed c v) [
  | rejects x e ↦ rw (e a refl) refl
  | records p m e n carried same ↦ rw (same a refl) (record_posting-Settles a w p m e n carried)
]
