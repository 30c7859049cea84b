-- ===== src/Ledger/Service/Balances.antt =====
-- core/modules/ledger/application/service/ledger_service.go: the balances that RecordLedgerEvents
-- leaves.
use wechat_clone.Base.{
  ◌≡◌, refl, ap, ◌∙◌, inl, inr, ◌⊎◌, ℕ, String, false, Option, none, some, List, [], ◌∷◌, ◌==◌,
  arith, Bool-cases, eq_iff, length,
}
use wechat_clone.Base.Int.{pos, ◌+ℤ◌, wrap64, int_laws}
use wechat_clone.Base.Text.{trim_space}
use wechat_clone.Base.Text.Case.{upper_trimmed}
use wechat_clone.Base.Maps.{Map, lookup}
use wechat_clone.Base.Results.{Result, ok, err, chain-Passed}
use wechat_clone.Event.{Event}
use wechat_clone.Ledger.Posting.{LedgerError, LedgerAccountPosting, LedgerEvent, one_of}
use wechat_clone.Ledger.Account.{LedgerAccountAggregate, apply_posting_event}
use wechat_clone.Ledger.Account.Settles.{IsWellFormed}
use wechat_clone.Ledger.Service.Moves.{carried, amount_of, effect}
use wechat_clone.Ledger.Service.Record.{
  RecordError, Progress, Repository, load_ledger_account, load_ledger_accounts, distinct_accounts,
  apply_events, settled, save_accounts, settle_events, commit, record_ledger_events,
}
use wechat_clone.Ledger.Service.Order.{
  addressed, apply_events-found, apply_events-unordered, apply_events-IsOrdered,
  apply_events-ordered, distinct_accounts-seen,
}
use wechat_clone.Ledger.Service.Applied.{plus_nothing, apply_events-All, apply_events-balance}
use wechat_clone.Ledger.Service.Repeated.{HavePosted, apply_events-HavePosted}
use wechat_clone.Ledger.Service.Stored.{
  IsStore, stored_balance, Opened, fresh-Opened, Opened-kept, AreFresh,
  load_ledger_accounts-AreFresh,
}
use wechat_clone.Ledger.Service.Saved.{IsSaved-balance, save_accounts-stored}

nothing_elsewhere :
    (id c owner : String) (r : Result LedgerError (Option LedgerAccountPosting))
    → (owner == id) ≡ false
    → amount_of id c owner r ≡ pos 0
nothing_elsewhere id c owner (ok (some p)) h = rw h refl
nothing_elsewhere id c owner (ok none) h = refl
nothing_elsewhere id c owner (err x) h = refl

-- An event for no account of that identifier has no effect on it.
effect_elsewhere :
    (id c : String) (es : List (Event LedgerEvent))
    → addressed id es ≡ false
    → effect id c es ≡ pos 0
effect_elsewhere id c [] h = refl
effect_elsewhere id c (e ∷ es) h =
    let owner = trim_space e.aggregate_id in
    rw
      (
        nothing_elsewhere id c owner (carried e) (ground (arith, eq_iff owner id, eq_iff id owner)),
        effect_elsewhere id c es (ground arith),
      )
      (omega int_laws)

-- The state in which the second loop begins.
abbrev pub begun : Map LedgerAccountAggregate → Map (Unit {0}) → Progress
begun accounts seen = record {
  accounts = accounts;
  seen = seen;
  save_order = [];
  applied_count = 0;
}

-- What the two loops have done where they return no error.
pub record IsLooped {S : Type 0} (repo : Repository S) (s : S) (es : List (Event LedgerEvent))
    (p : Progress) : Type 0 where
  pub seen : Map (Unit {0})
  pub ids : List String
  pub accounts : Map LedgerAccountAggregate
  pub distinct : distinct_accounts [] [] es ≡ ok (seen, ids)
  pub loaded : load_ledger_accounts repo s ids [] ≡ ok accounts
  pub applied : apply_events (begun accounts seen) es ≡ ok p

settle_events-IsLooped :
    {S : Type 0} (repo : Repository S) (s : S) (es : List (Event LedgerEvent)) (o : Option Progress)
    → settle_events repo s es ≡ ok o
    → (p : Progress) × IsLooped repo s es p × (settled p (length es) ≡ ok o)
unfolding settle_events
settle_events-IsLooped repo s es o h =
    let found = chain-Passed (distinct_accounts [] [] es) _ h in
    let accounts = chain-Passed (load_ledger_accounts repo s (found.value.1) []) _ found.rest in
    let q = chain-Passed (apply_events (begun accounts.value (found.value.0)) es) _ accounts.rest in
    (
      q.value,
      record {
        seen = found.value.0;
        ids = found.value.1;
        accounts = accounts.value;
        distinct = found.first;
        loaded = accounts.first;
        applied = q.first;
      },
      q.rest,
    )

settled_all : (p q : Progress) (n : ℕ) → settled p n ≡ ok (some q) → (p ≡ q) × (p.applied_count ≡ n)
unfolding settled
settled_all p q n h = ground arith

settled_none : (p : Progress) (n : ℕ) → settled p n ≡ ok none → p.applied_count ≡ 0
unfolding settled
settled_none p n h = ground arith

pub no_accounts :
    (j : String) (a : LedgerAccountAggregate)
    → ◌≡◌ {A = Option LedgerAccountAggregate} (lookup j []) (some a)
    → ⊥
unfolding lookup
no_accounts j a h = cc

module _ {S : Type 0} (repo : Repository S) (laws : IsStore repo) where
  pub loop_loaded :
      (s : S) (es : List (Event LedgerEvent)) (p : Progress) (st : IsLooped repo s es p)
      → AreFresh repo laws s st.accounts
  loop_loaded s es p st =
      load_ledger_accounts-AreFresh repo laws s st.ids [] st.accounts st.loaded
        (λ j a f. absurd (no_accounts j a f))

  pub loop_ready :
      (s : S) (es : List (Event LedgerEvent)) (p : Progress) (st : IsLooped repo s es p)
      → (j : String) (a : LedgerAccountAggregate) → lookup j st.accounts ≡ some a
      → Opened repo s j a
  loop_ready s es p st j a f =
      let (t, l) = loop_loaded s es p st j a f in fresh-Opened repo laws s j a t l

  pub gives :
      (s : S) (id : String) (a : LedgerAccountAggregate)
      → Opened repo s id a
      → IsWellFormed a × (a.root.aggregate_id ≡ id)
  gives s id a o = (o.well, o.named)

  -- Every event is posted already on the account that is stored for it.
  abbrev pub ArePosted : S → List (Event LedgerEvent) → Type 0
  ArePosted s [] = Unit
  ArePosted s (e ∷ es) =
      ((a : LedgerAccountAggregate) × (load_ledger_account repo s (trim_space e.aggregate_id)
          ≡ ok a)
        × (apply_posting_event a e.event_data ≡ (a, ok false)))
      × ArePosted s es

  HavePosted-ArePosted :
      (s : S) (m : Map LedgerAccountAggregate) (es : List (Event LedgerEvent))
      → AreFresh repo laws s m
      → HavePosted m es
      → ArePosted s es
  HavePosted-ArePosted s m [] fresh h = tt
  HavePosted-ArePosted s m (e ∷ es) fresh ((a, f, r), h) =
      ((a, (fresh (trim_space e.aggregate_id) a f).1, r), HavePosted-ArePosted s m es fresh h)

  settled_moves :
      (s s' : S) (es : List (Event LedgerEvent)) (p : Progress)
      → IsLooped repo s es p
      → p.applied_count ≡ length es
      → save_accounts repo s p.accounts p.save_order ≡ (s', none)
      → (id c : String)
      → wrap64 (stored_balance repo s' id c)
        ≡ wrap64 (stored_balance repo s id c +ℤ effect id (upper_trimmed c) es)
  unfolding one_of
  settled_moves s s' es p st count h id c =
      let first = begun st.accounts st.seen in
      let fresh = loop_loaded s es p st in
      let opened = loop_ready s es p st in
      let all =
        apply_events-All (Opened repo s) (Opened-kept repo laws s) (gives s) first p es st.applied
          opened in
      let moved =
        apply_events-balance (Opened repo s) (Opened-kept repo laws s) (gives s) first p es id c
          st.applied (count ∙ omega arith) opened in
      let order =
        apply_events-IsOrdered first p es st.applied
          (record { distinct = tt; apart = λ j t. absurd (cc t) }) in
      let (saved_ones, kept) =
        save_accounts-stored repo laws s s' p.accounts p.save_order h order.distinct
          (λ j a t f. all j a f) id in
      elim (Bool-cases (addressed id es)) [
        | inl for_it ↦
            let (a, f) = apply_events-found first p es id st.applied for_it in
            let ordered =
              apply_events-ordered first p es id st.applied
                (inl (distinct_accounts-seen [] st.seen [] st.ids es id st.distinct for_it))
                for_it in
            rw ((fresh id a f).1) (
              ap wrap64 (IsSaved-balance repo s' p.accounts id c (saved_ones ordered))
              ∙ (rw f at moved))
        | inr for_others ↦
            let left = kept (apply_events-unordered first p es id st.applied refl for_others) in
            rw (left, effect_elsewhere id (upper_trimmed c) es for_others)
              (plus_nothing (stored_balance repo s id c))
      ]

  -- What RecordLedgerEvents has done where it returns no error.
  pub data Outcome (s s' : S) (es : List (Event LedgerEvent)) : Type 0 where
    unwritten : s' ≡ s → ArePosted s es → Outcome s s' es
    written :
        (p : Progress)
        → IsLooped repo s es p
        → p.applied_count ≡ length es
        → save_accounts repo s p.accounts p.save_order ≡ (s', none)
        → Outcome s s' es

  pub record_ledger_events-Outcome :
      (s s' : S) (es : List (Event LedgerEvent))
      → record_ledger_events repo s es ≡ (s', ok tt)
      → Outcome s s' es
  unfolding record_ledger_events commit
  record_ledger_events-Outcome s s' [] h = unwritten (cc h) tt
  record_ledger_events-Outcome s s' (e ∷ es) h = go (settle_events repo s (e ∷ es)) refl
    where
      done :
          (p : Progress) (r : S × Option RecordError)
          → settle_events repo s (e ∷ es) ≡ ok (some p)
          → save_accounts repo s p.accounts p.save_order ≡ r
          → Outcome s s' (e ∷ es)
      done p (t, none) f g =
          let same : t ≡ s' = cc (rw (f, record_ledger_events, g, commit) at h) in
          let (q, st, n) = settle_events-IsLooped repo s (e ∷ es) (some p) f in
          let (all, count) = settled_all q p (length (e ∷ es)) n in
          written q st count (rw (all, g) (cc same))
      done p (t, some x) f g = absurd (cc (rw (f, record_ledger_events, g, commit) at h))

      go :
          (r : Result RecordError (Option Progress))
          → settle_events repo s (e ∷ es) ≡ r
          → Outcome s s' (e ∷ es)
      go (err x) f = absurd (cc (rw (f, record_ledger_events) at h))
      go (ok none) f =
          let (q, st, n) = settle_events-IsLooped repo s (e ∷ es) none f in
          unwritten (cc (rw (f, record_ledger_events) at h)) (
            HavePosted-ArePosted s st.accounts (e ∷ es) (loop_loaded s (e ∷ es) q st) (
              apply_events-HavePosted (Opened repo s) (gives s) (begun st.accounts st.seen) q
                (e ∷ es) st.applied (settled_none q (length (e ∷ es)) n)
                (loop_ready s (e ∷ es) q st)))
      go (ok (some p)) f = done p (save_accounts repo s p.accounts p.save_order) f refl

  -- On a repository that keeps the laws IsStore, RecordLedgerEvents, where it returns no error, has
  -- either found that every event is posted already on its account, and leaves the database as it
  -- was, or has applied all events: then the stored balance of every account in every currency is
  -- the balance before plus what the events carry for that account and currency, in int64, which is
  -- nothing for the accounts that no event is for.
  pub record_ledger_events_moves :
      (s s' : S) (es : List (Event LedgerEvent))
      → record_ledger_events repo s es ≡ (s', ok tt)
      → ((s' ≡ s) × ArePosted s es)
        ⊎ ((id c : String)
            → wrap64 (stored_balance repo s' id c)
              ≡ wrap64 (stored_balance repo s id c +ℤ effect id (upper_trimmed c) es))
  record_ledger_events_moves s s' es h = elim (record_ledger_events-Outcome s s' es h) [
    | unwritten same posted ↦ inl (same, posted)
    | written p st count saves ↦ inr (settled_moves s s' es p st count saves)
  ]
