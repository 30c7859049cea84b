-- ===== src/Ledger/Service/Stored.antt =====
-- core/modules/ledger/application/service/ledger_service.go: what RecordLedgerEvents relies on in the
-- repository of the accounts, and what its first two loops load.
use wechat_clone.Base.{
  ◌≡◌, refl, ◌∙◌, inl, inr, String, Bool, true, false, some, List, [], ◌∷◌, ◌==◌, Bool-cases,
  Option-cases, eq_iff,
}
use wechat_clone.Base.Int.{ℤ, pos}
use wechat_clone.Base.Text.{trim_space, trim_space_idem}
use wechat_clone.Base.Maps.{Map, lookup, insert, lookup-insert}
use wechat_clone.Base.Results.{Result, ok, err, chain-Passed}
use wechat_clone.Ledger.Posting.{LedgerError, LedgerEvent}
use wechat_clone.Ledger.Account.{LedgerAccountAggregate, apply_posting_event, balance}
use wechat_clone.Ledger.Account.Commands.{run, apply_event as apply_event_command}
use wechat_clone.Ledger.Account.Settles.{IsWellFormed, Settles, run-Settles}
use wechat_clone.Ledger.Account.History.{Reached, start, after, Reached-IsWellFormed}
use wechat_clone.Ledger.Service.Record.{
  RecordError, Repository, saved, load_ledger_account, load_ledger_accounts,
}

-- What the service relies on: a loaded account is well-formed and has the identifier that it was
-- asked for; an account that was loaded, received commands and was saved without an error is loaded
-- with the state that it had then; and a save leaves the other accounts alone.
pub record IsStore {S : Type 0} (repo : Repository S) : Type 0 where
  pub opened :
      (s : S) (id : String) (a : LedgerAccountAggregate)
      → trim_space id ≡ id
      → load_ledger_account repo s id ≡ ok a
      → IsWellFormed a × (a.root.aggregate_id ≡ id)
  pub written :
      (s s' : S) (id : String) (base a : LedgerAccountAggregate)
      → trim_space id ≡ id
      → load_ledger_account repo s id ≡ ok base
      → Reached base a
      → repo.save s a ≡ (s', saved)
      → (b : LedgerAccountAggregate) × (load_ledger_account repo s' id ≡ ok b) × (b.state ≡ a.state)
  pub others :
      (s s' : S) (id : String) (a : LedgerAccountAggregate)
      → (id == a.root.aggregate_id) ≡ false
      → repo.save s a ≡ (s', saved)
      → load_ledger_account repo s' id ≡ load_ledger_account repo s id

-- The balance of the account `id` as it is loaded.
abbrev pub loaded_balance : String → Result RecordError LedgerAccountAggregate → ℤ
loaded_balance c (ok a) = balance a.state c
loaded_balance c (err _) = pos 0

abbrev pub stored_balance : {S : Type 0} → Repository S → S → String → String → ℤ
stored_balance repo s id c = loaded_balance c (load_ledger_account repo s id)

-- The identifier of an account is not changed by commands.
pub Settles-named :
    (a : LedgerAccountAggregate) (r : LedgerAccountAggregate × Result LedgerError Bool)
    → Settles a r
    → r.0.root.aggregate_id ≡ a.root.aggregate_id
Settles-named a (b, err _) s = rw s refl
Settles-named a (b, ok false) s = rw s refl
Settles-named a (b, ok true) (p, e, books) = rw books.booked refl

-- The account is loaded from the database, and has received nothing but commands since.
pub record Opened {S : Type 0} (repo : Repository S) (s : S) (id : String)
    (a : LedgerAccountAggregate) : Type 0 where
  pub base : LedgerAccountAggregate
  pub trimmed : trim_space id ≡ id
  pub loaded : load_ledger_account repo s id ≡ ok base
  pub reached : Reached base a
  pub well : IsWellFormed a
  pub named : a.root.aggregate_id ≡ id

module _ {S : Type 0} (repo : Repository S) (laws : IsStore repo) where
  pub fresh-Opened :
      (s : S) (id : String) (a : LedgerAccountAggregate)
      → trim_space id ≡ id
      → load_ledger_account repo s id ≡ ok a
      → Opened repo s id a
  fresh-Opened s id a t h =
      let (well, named) = laws.opened s id a t h in
      record { base = a; trimmed = t; loaded = h; reached = start; well = well; named = named }

  pub Opened-kept :
      (s : S) (id : String) (a b : LedgerAccountAggregate) (e : LedgerEvent) (t : Bool)
      → Opened repo s id a
      → apply_posting_event a e ≡ (b, ok t)
      → Opened repo s id b
  unfolding run
  Opened-kept s id a b e t o h =
      let next : Reached o.base (run (apply_event_command e) a).0 =
        after (apply_event_command e) tt o.reached in
      let named : (run (apply_event_command e) a).0.root.aggregate_id ≡ a.root.aggregate_id =
        Settles-named a (run (apply_event_command e) a)
          (run-Settles (apply_event_command e) a o.well tt) in
      let there : Reached o.base b = rw h at next in
      record {
        base = o.base;
        trimmed = o.trimmed;
        loaded = o.loaded;
        reached = there;
        well = Reached-IsWellFormed (laws.opened s id o.base o.trimmed o.loaded).0 there;
        named = (rw h at named) ∙ o.named;
      }

  -- The accounts are loaded under their identifiers.
  abbrev pub AreFresh : S → Map LedgerAccountAggregate → Type 0
  AreFresh s accounts =
      (id : String) (a : LedgerAccountAggregate)
      → lookup id accounts ≡ some a
      → (trim_space id ≡ id) × (load_ledger_account repo s id ≡ ok a)

  pub load_ledger_accounts-AreFresh :
      (s : S) (ids : List String) (accounts loaded : Map LedgerAccountAggregate)
      → load_ledger_accounts repo s ids accounts ≡ ok loaded
      → AreFresh s accounts
      → AreFresh s loaded
  unfolding load_ledger_accounts
  load_ledger_accounts-AreFresh s [] accounts loaded h all =
      let same : loaded ≡ accounts = cc h in rw same all
  load_ledger_accounts-AreFresh s (id ∷ ids) accounts loaded h all =
      let k = trim_space id in
      elim (Bool-cases (k == "")) [
        | inl blank ↦ load_ledger_accounts-AreFresh s ids accounts loaded (rw blank at h) all
        | inr given ↦ elim (Option-cases (lookup k accounts)) [
          | inr (a, known) ↦
              load_ledger_accounts-AreFresh s ids accounts loaded (rw (given, known) at h) all
          | inl new ↦
              let made = chain-Passed (load_ledger_account repo s k) _ (rw (given, new) at h) in
              load_ledger_accounts-AreFresh s ids (insert k made.value accounts) loaded made.rest
                (added k made.value (trim_space_idem id) made.first)
        ]
      ]
    where
      added :
          (k : String) (b : LedgerAccountAggregate)
          → trim_space k ≡ k
          → load_ledger_account repo s k ≡ ok b
          → AreFresh s (insert k b accounts)
      added k b t l j a f = elim (Bool-cases (k == j)) [
        | inl e ↦
            let here = (eq_iff k j).0 e in
            let same : b ≡ a = cc (rw (lookup-insert j k b accounts, e) at f) in
            (rw here at t, rw (here, same) at l)
        | inr e ↦ all j a (rw (lookup-insert j k b accounts, e) at f)
      ]
