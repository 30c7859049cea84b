-- ===== src/Ledger/Service/Record.antt =====
-- core/modules/ledger/application/service/ledger_service.go: RecordLedgerEvents and the helpers
-- that load and save accounts. The repository is an interface of the repository's own
-- (domain/repos/ledger_account_aggregate_repo.go): its two methods are a record, over the type `S`
-- of what the database holds. `WithTransaction` keeps the database as it was where the function
-- that it is given returns an error.
use wechat_clone.Base.{
  ℕ, ◌+◌, String, Bool, Option, none, some, List, [], ◌∷◌, ◌++◌, ◌==◌, if◌then◌else◌, eqb, length,
  not,
}
use wechat_clone.Base.Text.{trim_space}
use wechat_clone.Base.Maps.{Map, lookup, insert, delete}
use wechat_clone.Base.Results.{Result, ok, err, ◌>>=◌, ◌>>◌, fail_if, map_err}
use wechat_clone.Event.{Event}
use wechat_clone.Ledger.Posting.{LedgerError, LedgerEvent}
use wechat_clone.Ledger.Account.{LedgerAccountAggregate, new_ledger_account, apply_posting_event}

pub data RecordError : Type 0 where
  aggregate_id_required load_failed application_inconsistent save_failed : RecordError
  account_rejected event_rejected : LedgerError → RecordError
  not_loaded duplicate_inconsistent : String → RecordError

-- What `Save` returns: nil, ErrAlreadyApplied, or another error.
pub data SaveOutcome : Type 0 where
  saved already_applied failed : SaveOutcome

-- `LedgerAccountAggregateRepository`: `Load` returns nil for an account that is not stored.
pub record Repository (S : Type 0) : Type 0 where
  pub load : S → String → Result RecordError (Option LedgerAccountAggregate)
  pub save : S → LedgerAccountAggregate → S × SaveOutcome

-- The first loop of RecordLedgerEvents: the accounts of the events, each once, and as a set.
unfoldable pub distinct_accounts :
    Map (Unit {0})
    → List String
    → List (Event LedgerEvent)
    → Result RecordError (Map (Unit {0}) × List String)
distinct_accounts seen ids [] = ok (seen, ids)
distinct_accounts seen ids (e ∷ es) =
    let id = trim_space e.aggregate_id in
    let known = distinct_accounts seen ids es in
    let new = distinct_accounts (insert id tt seen) (ids ++ (id ∷ [])) es in
    if id == ""
    then err aggregate_id_required
    else elim (lookup id seen) [ some _ ↦ known | none ↦ new ]

-- The state of the second loop.
pub record Progress : Type 0 where
  pub accounts : Map LedgerAccountAggregate
  pub seen : Map (Unit {0})
  pub save_order : List String
  pub applied_count : ℕ

abbrev pub order_after : Option (Unit {0}) → String → List String → List String
order_after (some _) id ids = ids ++ (id ∷ [])
order_after none id ids = ids

-- What one event does to the loop's state, once its account is found: the account's identifier
-- goes to the save order the first time.
abbrev pub advanced : Progress → String → LedgerAccountAggregate → Bool → Progress
advanced p id b applied = record {
  accounts = insert id b p.accounts;
  seen = delete id p.seen;
  save_order = order_after (lookup id p.seen) id p.save_order;
  applied_count = if applied then p.applied_count + 1 else p.applied_count;
}

unfoldable pub applied_to :
    Progress
    → String
    → LedgerAccountAggregate × Result LedgerError Bool
    → Result RecordError Progress
applied_to p id (b, err x) = err (event_rejected x)
applied_to p id (b, ok applied) = ok (advanced p id b applied)

-- The body of the second loop.
unfoldable pub apply_event : Progress → Event LedgerEvent → Result RecordError Progress
unfolding applied_to
apply_event p e =
    let id = trim_space e.aggregate_id in
    elim (lookup id p.accounts) [
      | none ↦ err (not_loaded id)
      | some a ↦ applied_to p id (apply_posting_event a e.event_data)
    ]

unfoldable pub apply_events : Progress → List (Event LedgerEvent) → Result RecordError Progress
unfolding apply_event
apply_events p [] = ok p
apply_events p (e ∷ es) = apply_event p e >>= λ q. apply_events q es

-- The tests on the number of the events that were applied.
unfoldable pub settled : Progress → ℕ → Result RecordError (Option Progress)
settled p count =
    if eqb p.applied_count 0
    then ok none
    else (fail_if (not (eqb p.applied_count count)) application_inconsistent >> ok (some p))

-- The end of a transaction: an error undoes what was written.
unfoldable pub commit :
    {S : Type 0} → S → S × Option RecordError → S × Result RecordError (Unit {0})
commit s (s', none) = (s', ok tt)
commit s (s', some x) = (s, err x)

module _ {S : Type 0} (repo : Repository S) where
  -- `loadLedgerAccount`: an account that is not stored is a new one.
  unfoldable pub load_ledger_account : S → String → Result RecordError LedgerAccountAggregate
  load_ledger_account s id = elim (repo.load s id) [
    | err x ↦ err x
    | ok (some a) ↦ ok a
    | ok none ↦ map_err account_rejected (new_ledger_account id)
  ]

  -- `loadLedgerAccounts`, from the accounts that are loaded already.
  unfoldable pub load_ledger_accounts :
      S → List String → Map LedgerAccountAggregate → Result RecordError (Map LedgerAccountAggregate)
  unfolding load_ledger_account
  load_ledger_accounts s [] accounts = ok accounts
  load_ledger_accounts s (id ∷ ids) accounts =
      let key = trim_space id in
      let skip = load_ledger_accounts s ids accounts in
      let more =
        load_ledger_account s key >>= λ a. load_ledger_accounts s ids (insert key a accounts) in
      if key == "" then skip else elim (lookup key accounts) [ some _ ↦ skip | none ↦ more ]

  -- The last loop, with `saveLedgerAccount`. A missing account does not occur.
  unfoldable pub save_accounts :
      S → Map LedgerAccountAggregate → List String → S × Option RecordError
  save_accounts s accounts [] = (s, none)
  save_accounts s accounts (id ∷ ids) = elim (lookup id accounts) [
    | none ↦ (s, some (not_loaded id))
    | some a ↦
        let (s', outcome) = repo.save s a in
        let rest = save_accounts s' accounts ids in
        elim outcome [
          | saved ↦ rest
          | already_applied ↦ (s', some (duplicate_inconsistent id))
          | failed ↦ (s', some save_failed)
        ]
  ]

  -- The accounts and the order in which they are to be saved, after the second loop; `none` where
  -- no event was applied.
  unfoldable pub settle_events : S → List (Event LedgerEvent) → Result RecordError (Option Progress)
  unfolding distinct_accounts load_ledger_accounts apply_events settled
  settle_events s es = do
    found ← distinct_accounts [] [] es
    accounts ← load_ledger_accounts s (found.1) []
    p ←
        apply_events
          (record { accounts = accounts; seen = found.0; save_order = []; applied_count = 0 }) es
    settled p (length es)

  -- `RecordLedgerEvents`
  unfoldable pub record_ledger_events :
      S → List (Event LedgerEvent) → S × Result RecordError (Unit {0})
  unfolding settle_events save_accounts commit
  record_ledger_events s [] = (s, ok tt)
  record_ledger_events s (e ∷ es) = elim (settle_events s (e ∷ es)) [
    | err x ↦ (s, err x)
    | ok none ↦ (s, ok tt)
    | ok (some p) ↦ commit s (save_accounts s p.accounts p.save_order)
  ]
