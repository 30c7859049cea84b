-- ===== src/Ledger/RecordTests.antt =====
-- A repository in memory, and runs of the ledger's services on it, for
-- core/modules/ledger/application/service.
use wechat_clone.Base.{
  ℕ, ◌≡◌, refl, sym, ap, ◌∙◌, inl, inr, ◌⊎◌, String, Bool, true, false, Option, none, some, [], ◌∷◌,
  arith, ◌==◌, eq_iff, if◌then◌else◌, Option-cases,
}
use wechat_clone.Base.Int.{pos, pos_part, ◌+ℤ◌, wrap64, add64, neg64, neg_ℤ, mul64, ◌*ℤ◌}
use wechat_clone.Base.Text.{trim_space, is_space, to_upper}
use wechat_clone.Base.Text.Case.{upper_trimmed}
use wechat_clone.Base.Maps.{Map, lookup, insert, delete, get_or, lookup-insert, lookup-insert_self}
use wechat_clone.Base.Results.{Result, ok, err, map_err}
use wechat_clone.Event.{
  init_aggregate, set_id, apply_change, new_event, next_version, current_version, last_version,
  append_and_transition,
}
use wechat_clone.Ledger.Posting.{
  LedgerError, requires_non_negative_balance, new_payment_posting, new_ledger_posting,
  normalize_ledger_account_posting, validate_posting, normalized, is_known_reference_type, one_of,
}
use wechat_clone.Ledger.Events.{
  preview_posting_from_event, new_posting_from_payment_event, event_name,
}
use wechat_clone.Ledger.Account.{
  LedgerAccountState, LedgerAccountAggregate, new_ledger_account, apply_posting_event,
  record_posting, lookup_pending_posting, ensure_posting_allowed, balance, change_account,
  transition, transition_data, apply_event_posting, apply_posting, apply_normalized, apply_result,
  post,
}
use wechat_clone.Ledger.Account.Commands.{run}
use wechat_clone.Ledger.Account.Settles.{IsWellFormed, run-Settles}
use wechat_clone.Ledger.Account.Posting.{IsOwnedBy}
use wechat_clone.Ledger.Account.History.{
  Reached, start, after, Reached-IsWellFormed, new_ledger_account-IsWellFormed,
}
use wechat_clone.Ledger.Service.Record.{
  RecordError, Repository, saved, load_ledger_account, account_rejected, record_ledger_events,
  settle_events, save_accounts, commit, settled, distinct_accounts, load_ledger_accounts,
  apply_events, apply_event, applied_to,
}
use wechat_clone.Ledger.Service.Moves.{effect}
use wechat_clone.Ledger.Service.Balances.{ArePosted, record_ledger_events_moves}
use wechat_clone.Ledger.Service.{requested, failed, new_payment_event_service}
use wechat_clone.Ledger.Service.Redelivered.{record_ledger_events_again}
use wechat_clone.Ledger.Service.Deliver.{deliver, deliver_undone}
use wechat_clone.Ledger.ServiceTests.{
  asked, declined, held, given_back, held_run, given_back_run, undone,
}
use wechat_clone.Ledger.Service.Order.{not_same}
use wechat_clone.Ledger.Service.Stored.{IsStore, stored_balance, Settles-named}

-- An account as it is loaded; a stored account belongs to nobody else.
abbrev kept : String → LedgerAccountState → LedgerAccountAggregate
kept id st = record {
  root = record {
    aggregate_id = id;
    aggregate_type = "LedgerAccountAggregate";
    version = 0;
    base_version = 0;
    events = [];
  };
  state = record st { account_id = if st.account_id == "" then "" else id };
}

abbrev kept_or_none : String → Option LedgerAccountState → Option LedgerAccountAggregate
kept_or_none id none = none
kept_or_none id (some st) = some (kept id st)

abbrev memory : Repository (Map LedgerAccountState)
memory = record {
  load = λ s id. ok (kept_or_none id (lookup id s));
  save = λ s a. (insert a.root.aggregate_id a.state s, saved);
}

Reached-named :
    {a b : LedgerAccountAggregate}
    → IsWellFormed a
    → Reached a b
    → b.root.aggregate_id ≡ a.root.aggregate_id
Reached-named w start = refl
Reached-named w (after {b} c v r) =
    Settles-named b (run c b) (run-Settles c b (Reached-IsWellFormed w r) v) ∙ Reached-named w r

new_ledger_account-named :
    (id : String) (a : LedgerAccountAggregate)
    → new_ledger_account id ≡ ok a
    → a.root.aggregate_id ≡ trim_space id
unfolding new_ledger_account init_aggregate set_id
new_ledger_account-named id a h = ground arith

kept_state : (id : String) (st : LedgerAccountState) → IsOwnedBy st id → (kept id st).state ≡ st
kept_state id st (inl e) = rw e (ground arith)
kept_state id st (inr e) = ground (arith, eq_iff id "")

memory-opened :
    (s : Map LedgerAccountState) (id : String) (a : LedgerAccountAggregate)
    → trim_space id ≡ id
    → load_ledger_account memory s id ≡ ok a
    → IsWellFormed a × (a.root.aggregate_id ≡ id)
unfolding load_ledger_account
memory-opened s id a t h = elim (Option-cases (lookup id s)) [
  | inl absent ↦ fresh (new_ledger_account id) refl (rw (absent, load_ledger_account) at h)
  | inr (st, there) ↦
      let same : kept id st ≡ a = cc (rw (there, load_ledger_account) at h) in
      rw (← same) (record { trimmed = t; owned = owned (st.account_id == "") }, refl)
]
  where
    owned : (b : Bool) → ((if b then "" else id) ≡ "") ⊎ ((if b then "" else id) ≡ id)
    owned true = inl refl
    owned false = inr refl

    fresh :
        (r : Result LedgerError LedgerAccountAggregate)
        → new_ledger_account id ≡ r
        → map_err account_rejected r ≡ ok a
        → IsWellFormed a × (a.root.aggregate_id ≡ id)
    fresh (err x) f g = absurd (cc g)
    fresh (ok b) f g =
        let same : b ≡ a = cc g in
        let made : new_ledger_account id ≡ ok a = rw same at f in
        (new_ledger_account-IsWellFormed id a made, new_ledger_account-named id a made ∙ t)

abbrev loaded_as : String → Option LedgerAccountState → Result RecordError LedgerAccountAggregate
loaded_as id none = map_err account_rejected (new_ledger_account id)
loaded_as id (some st) = ok (kept id st)

load_memory :
    (s : Map LedgerAccountState) (id : String) (o : Option LedgerAccountState)
    → lookup id s ≡ o
    → load_ledger_account memory s id ≡ loaded_as id o
unfolding load_ledger_account
load_memory s id none f = rw (f, load_ledger_account) refl
load_memory s id (some st) f = rw (f, load_ledger_account) refl

memory-IsStore : IsStore memory
memory-IsStore = record {
  opened = memory-opened;
  written = λ s s' id base a t l r w.
      let (well, named) = memory-opened s id base t l in
      let owner : a.root.aggregate_id ≡ id = Reached-named well r ∙ named in
      let written : insert id a.state s ≡ s' = rw (← owner) (cc w) in
      let mine : IsOwnedBy a.state id = rw owner at (Reached-IsWellFormed well r).owned in
      (
        kept id a.state,
        rw (← written)
            (load_memory (insert id a.state s) id (some a.state) (lookup-insert_self id a.state s)),
        kept_state id a.state mine,
      );
  others = λ s s' id a n w.
      let written : insert a.root.aggregate_id a.state s ≡ s' = cc w in
      rw (← written) (
        load_memory (insert a.root.aggregate_id a.state s) id (lookup id s) (
          lookup-insert id a.root.aggregate_id a.state s
          ∙ rw (not_same id a.root.aggregate_id n) refl)
        ∙ sym (load_memory s id (lookup id s) refl));
}

abbrev funded : Map LedgerAccountState
funded =
    (
      "acc:7",
      record { account_id = "acc:7"; balances = ("USD", pos 5000) ∷ []; posted_transactions = [] },
    )
    ∷ []

-- The database after the request of a withdrawal, and after its failure.
abbrev after_request : Map LedgerAccountState
after_request = (record_ledger_events memory funded held).0

abbrev after_failure : Map LedgerAccountState
after_failure = (record_ledger_events memory after_request given_back).0

-- The two recordings, and the balances before, between and after them.
record Runs : Type 0 where
  request_recorded : record_ledger_events memory funded held ≡ (after_request, ok tt)
  failure_recorded : record_ledger_events memory after_request given_back ≡ (after_failure, ok tt)
  after_request_balance : stored_balance memory after_request "acc:7" "usd" ≡ pos 3975
  funded_balance : stored_balance memory funded "acc:7" "usd" ≡ pos 5000
  after_failure_balance : stored_balance memory after_failure "acc:7" "usd" ≡ pos 5000

runs : Runs
unfolding record_ledger_events settle_events save_accounts commit settled distinct_accounts
    load_ledger_accounts load_ledger_account apply_events apply_event applied_to apply_posting_event
    record_posting lookup_pending_posting ensure_posting_allowed requires_non_negative_balance
    balance change_account apply_change transition transition_data apply_event_posting apply_posting
    apply_normalized apply_result post preview_posting_from_event new_posting_from_payment_event
    event_name new_ledger_account init_aggregate set_id new_event next_version current_version
    last_version append_and_transition new_payment_posting new_ledger_posting
    normalize_ledger_account_posting validate_posting normalized is_known_reference_type one_of
    upper_trimmed trim_space is_space to_upper lookup insert delete get_or mul64 ◌*ℤ◌ wrap64 add64
    ◌+ℤ◌ neg64 neg_ℤ
runs = record {
  request_recorded = refl;
  failure_recorded = refl;
  after_request_balance = refl;
  funded_balance = refl;
  after_failure_balance = refl;
}

record_ledger_events_moves_example :
    ((after_request ≡ funded) × ArePosted memory memory-IsStore funded held)
    ⊎ ((id c : String)
        → wrap64 (stored_balance memory after_request id c)
          ≡ wrap64 (stored_balance memory funded id c +ℤ effect id (upper_trimmed c) held))
record_ledger_events_moves_example =
    record_ledger_events_moves memory memory-IsStore funded after_request held runs.request_recorded

-- Two databases with different balances differ.
differ :
    (s t : Map LedgerAccountState) (x y : ℕ)
    → stored_balance memory s "acc:7" "usd" ≡ pos x
    → stored_balance memory t "acc:7" "usd" ≡ pos y
    → ¬ (x ≡ y)
    → ¬ (s ≡ t)
differ s t x y h k n e = n (ap pos_part same)
  where
    same : pos x ≡ pos y
    same = sym h ∙ ap (λ (m : Map LedgerAccountState). stored_balance memory m "acc:7" "usd") e ∙ k

requested_run :
    deliver memory (new_payment_event_service " fees ") 11 funded (requested asked)
    ≡ (after_request, ok tt)
unfolding deliver
requested_run = rw (held_run, deliver) (rw runs.request_recorded refl)

failed_run :
    deliver memory (new_payment_event_service " fees ") 12 after_request (failed declined)
    ≡ (after_failure, ok tt)
unfolding deliver
failed_run = rw (given_back_run, deliver) (rw runs.failure_recorded refl)

deliver_undone_example :
    wrap64 (stored_balance memory after_failure "acc:7" "usd")
    ≡ wrap64 (stored_balance memory funded "acc:7" "usd")
deliver_undone_example =
    deliver_undone memory memory-IsStore " fees " 11 12 funded after_request after_failure
      (requested asked) (failed declined) (omega arith, omega arith, omega arith)
      (omega arith, omega arith, omega arith) undone requested_run failed_run
      (differ after_request funded 3975 5000 runs.after_request_balance runs.funded_balance
        (λ e. omega arith))
      (differ after_failure after_request 5000 3975 runs.after_failure_balance
        runs.after_request_balance (λ e. omega arith))
      "acc:7" "usd"

record_ledger_events_again_example :
    record_ledger_events memory after_request held ≡ (after_request, ok tt)
record_ledger_events_again_example =
    record_ledger_events_again memory memory-IsStore funded after_request held runs.request_recorded
