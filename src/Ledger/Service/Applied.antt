-- ===== src/Ledger/Service/Applied.antt =====
-- core/modules/ledger/application/service/ledger_service.go: what the second loop of
-- RecordLedgerEvents does to the balances of the loaded accounts.
use wechat_clone.Base.{
  ◌≡◌, refl, sym, subst, ap, ◌∙◌, inl, inr, suc, ◌+◌, ◌≤◌, String, Bool, true, false, Option, none,
  some, List, [], ◌∷◌, ◌==◌, arith, if◌then◌else◌, Bool-cases, eq_iff, length,
}
use wechat_clone.Base.Int.{ℤ, pos, ◌+ℤ◌, wrap64, add64, int_laws, wrap64-add_left}
use wechat_clone.Base.Text.{trim_space}
use wechat_clone.Base.Text.Case.{upper_trimmed}
use wechat_clone.Base.Maps.{Map, lookup, insert, lookup-insert}
use wechat_clone.Base.Results.{Result, ok, err, chain-Passed}
use wechat_clone.Event.{Event}
use wechat_clone.Ledger.Posting.{LedgerError, LedgerAccountPosting, LedgerEvent, posting_mismatch}
use wechat_clone.Ledger.Events.{preview_posting_from_event}
use wechat_clone.Ledger.Events.RoundTrip.{preview-IsNormal}
use wechat_clone.Ledger.Account.{LedgerAccountAggregate, apply_posting_event, balance}
use wechat_clone.Ledger.Account.Balance.{balance-post}
use wechat_clone.Ledger.Account.Settles.{IsWellFormed, Books, record_posting-Books}
use wechat_clone.Ledger.Service.Moves.{carried, amount_of, effect}
use wechat_clone.Ledger.Service.Record.{Progress, apply_event, apply_events}
use wechat_clone.Ledger.Service.Order.{apply_event-Advances}

-- An event that a well-formed account has applied carries a posting, and the account has booked it.
pub apply_posting_event-Books :
    (a b : LedgerAccountAggregate) (e : LedgerEvent)
    → IsWellFormed a
    → apply_posting_event a e ≡ (b, ok true)
    → (q : LedgerAccountPosting) × (preview_posting_from_event a.root.aggregate_id e ≡ ok (some q))
      × Books a q e b
unfolding apply_posting_event
apply_posting_event-Books a b e w h = go (preview_posting_from_event a.root.aggregate_id e) refl
  where
    go :
        (r : Result LedgerError (Option LedgerAccountPosting))
        → preview_posting_from_event a.root.aggregate_id e ≡ r
        → (q : LedgerAccountPosting) × (preview_posting_from_event a.root.aggregate_id e
            ≡ ok (some q))
          × Books a q e b
    go (err x) f = absurd (cc (rw (f, apply_posting_event) at h))
    go (ok none) f = absurd (cc (rw (f, apply_posting_event) at h))
    go (ok (some q)) f = (
      q,
      f,
      record_posting-Books a w q posting_mismatch e b
          (preview-IsNormal a.root.aggregate_id e q w.trimmed f) f
          (rw (f, apply_posting_event) at h),
    )

-- The balance of an account of the map.
abbrev pub balance_of : String → Option LedgerAccountAggregate → ℤ
balance_of c none = pos 0
balance_of c (some a) = balance a.state c

abbrev pub balance_at : Map LedgerAccountAggregate → String → String → ℤ
balance_at m id c = balance_of c (lookup id m)

pub plus_nothing : (x : ℤ) → wrap64 x ≡ wrap64 (x +ℤ pos 0)
plus_nothing x = ap wrap64 {x = x} {y = x +ℤ pos 0} (omega int_laws)

wrap_twice : (x d : ℤ) → wrap64 (add64 x d) ≡ wrap64 (x +ℤ d)
unfolding add64
wrap_twice x d =
    plus_nothing (wrap64 (x +ℤ d)) ∙ wrap64-add_left (x +ℤ d) (pos 0) ∙ sym (plus_nothing (x +ℤ d))

-- The same sum in two steps.
chained :
    (x y z d r : ℤ)
    → wrap64 y ≡ wrap64 (x +ℤ d)
    → wrap64 z ≡ wrap64 (y +ℤ r)
    → wrap64 z ≡ wrap64 (x +ℤ (d +ℤ r))
chained x y z d r h k =
    k
    ∙ sym (wrap64-add_left y r)
    ∙ ap (λ (v : ℤ). wrap64 (v +ℤ r)) h
    ∙ wrap64-add_left (x +ℤ d) r
    ∙ ap wrap64 {x = (x +ℤ d) +ℤ r} {y = x +ℤ (d +ℤ r)} (omega int_laws)

module _ (k : String) (e : Event LedgerEvent) (a b : LedgerAccountAggregate)
    (m : Map LedgerAccountAggregate) (owner : trim_space e.aggregate_id ≡ k)
    (found : lookup k m ≡ some a) (well : IsWellFormed a) (named : a.root.aggregate_id ≡ k)
    (ran : apply_posting_event a e.event_data ≡ (b, ok true)) where
  -- An applied event moves the balance of its account by what it carries, and no other balance.
  applied_balance :
      (id c : String)
      → wrap64 (balance_at (insert k b m) id c)
        ≡ wrap64 (
            balance_at m id c
            +ℤ amount_of id (upper_trimmed c) (trim_space e.aggregate_id) (carried e))
  applied_balance id c =
      let (q, preview, books) = apply_posting_event-Books a b e.event_data well ran in
      let posting : carried e ≡ ok (some q) = rw (owner, ← named) preview in
      let after : balance b.state c ≡ (
          if q.currency == upper_trimmed c
          then add64 (balance a.state c) q.amount_delta
          else balance a.state c) =
        rw books.booked (balance-post a.state a.root.aggregate_id q c) in
      rw (lookup-insert id k b m, posting, owner)
        (elim (Bool-cases (k == id)) [
          | inr other ↦ rw other (plus_nothing (balance_at m id c))
          | inl same ↦
              let here = (eq_iff k id).0 same in
              rw (same, ← here, found, after)
                (elim (Bool-cases (q.currency == upper_trimmed c)) [
                  | inl t ↦ rw t (wrap_twice (balance a.state c) q.amount_delta)
                  | inr t ↦ rw t (plus_nothing (balance a.state c))
                ])
        ])

-- Each event counts at most once.
apply_events-count :
    (p q : Progress) (es : List (Event LedgerEvent))
    → apply_events p es ≡ ok q
    → q.applied_count ≤ p.applied_count + length es
unfolding apply_events
apply_events-count p q [] h = let same : q ≡ p = cc h in rw same (omega arith)
apply_events-count p q (e ∷ es) h =
    let step = chain-Passed (apply_event p e) _ h in
    let a = apply_event-Advances p step.value e step.first in
    let later = apply_events-count step.value q es step.rest in
    counts a.applied (rw a.next at later)
  where
    counts :
        (t : Bool)
        → q.applied_count ≤ (if t then p.applied_count + 1 else p.applied_count) + length es
        → q.applied_count ≤ p.applied_count + suc (length es)
    counts true h = omega arith
    counts false h = omega arith

-- A property of the loaded accounts, by their identifiers, that an applied event keeps.
module _ (P : String → LedgerAccountAggregate → Type 0)
    (keeps : (id : String) (a b : LedgerAccountAggregate) (e : LedgerEvent) (t : Bool)
      → P id a
      → apply_posting_event a e ≡ (b, ok t)
      → P id b)
    (gives : (id : String) (a : LedgerAccountAggregate)
      → P id a
      → IsWellFormed a × (a.root.aggregate_id ≡ id)) where
  abbrev pub All : Map LedgerAccountAggregate → Type 0
  All m = (id : String) (a : LedgerAccountAggregate) → lookup id m ≡ some a → P id a

  pub insert-All :
      (m : Map LedgerAccountAggregate) (k : String) (b : LedgerAccountAggregate)
      → P k b
      → All m
      → All (insert k b m)
  insert-All m k b h all id a f = elim (Bool-cases (k == id)) [
    | inl e ↦
        let same : b ≡ a = cc (rw (lookup-insert id k b m, e) at f) in
        subst (λ (i : String). P i a) ((eq_iff k id).0 e)
          (subst (λ (x : LedgerAccountAggregate). P k x) same h)
    | inr e ↦ all id a (rw (lookup-insert id k b m, e) at f)
  ]

  pub apply_events-All :
      (p q : Progress) (es : List (Event LedgerEvent))
      → apply_events p es ≡ ok q
      → All p.accounts
      → All q.accounts
  unfolding apply_events
  apply_events-All p q [] h all = let same : q ≡ p = cc h in rw same all
  apply_events-All p q (e ∷ es) h all =
      let k = trim_space e.aggregate_id in
      let step = chain-Passed (apply_event p e) _ h in
      let a = apply_event-Advances p step.value e step.first in
      apply_events-All step.value q es step.rest (
        rw a.next (
          insert-All p.accounts k a.after
            (keeps k a.before a.after e.event_data a.applied (all k a.before a.found) a.ran) all))

  -- The first round of the loop, where every event is applied.
  pub record Round (p q : Progress) (e : Event LedgerEvent) (es : List (Event LedgerEvent))
      : Type 0 where
    pub before : LedgerAccountAggregate
    pub after : LedgerAccountAggregate
    pub next : Progress
    pub found : lookup (trim_space e.aggregate_id) p.accounts ≡ some before
    pub ran : apply_posting_event before e.event_data ≡ (after, ok true)
    pub accounts : next.accounts ≡ insert (trim_space e.aggregate_id) after p.accounts
    pub rest : apply_events next es ≡ ok q
    pub count : q.applied_count ≡ next.applied_count + length es
    pub all : All next.accounts
    pub well : IsWellFormed before
    pub named : before.root.aggregate_id ≡ trim_space e.aggregate_id

  pub apply_events-Round :
      (p q : Progress) (e : Event LedgerEvent) (es : List (Event LedgerEvent))
      → apply_events p (e ∷ es) ≡ ok q
      → q.applied_count ≡ p.applied_count + suc (length es)
      → All p.accounts
      → Round p q e es
  unfolding apply_events
  apply_events-Round p q e es h n all =
      let k = trim_space e.aggregate_id in
      let step = chain-Passed (apply_event p e) _ h in
      let a = apply_event-Advances p step.value e step.first in
      let count = apply_events-count step.value q es step.rest in
      let (t, m) = all_applied a.applied (rw a.next at count) in
      let (well, named) = gives k a.before (all k a.before a.found) in
      record {
        before = a.before;
        after = a.after;
        next = step.value;
        found = a.found;
        ran = rw t at a.ran;
        accounts = rw a.next refl;
        rest = step.rest;
        count = m ∙ rw (a.next, t) refl;
        all = rw a.next (
            insert-All p.accounts k a.after
              (keeps k a.before a.after e.event_data a.applied (all k a.before a.found) a.ran) all);
        well = well;
        named = named;
      }
    where
      all_applied :
          (t : Bool)
          → q.applied_count ≤ (if t then p.applied_count + 1 else p.applied_count) + length es
          → (t ≡ true) × (q.applied_count ≡ (p.applied_count + 1) + length es)
      all_applied true h = (refl, omega arith)
      all_applied false h = absurd (omega arith)

  -- Where every event is applied, each account's balance moves by what the events carry for it.
  pub apply_events-balance :
      (p q : Progress) (es : List (Event LedgerEvent)) (id c : String)
      → apply_events p es ≡ ok q
      → q.applied_count ≡ p.applied_count + length es
      → All p.accounts
      → wrap64 (balance_at q.accounts id c)
        ≡ wrap64 (balance_at p.accounts id c +ℤ effect id (upper_trimmed c) es)
  unfolding apply_events
  apply_events-balance p q [] id c h n all =
      let same : q ≡ p = cc h in rw same (plus_nothing (balance_at p.accounts id c))
  apply_events-balance p q (e ∷ es) id c h n all =
      let k = trim_space e.aggregate_id in
      let r = apply_events-Round p q e es h n all in
      let later = apply_events-balance r.next q es id c r.rest r.count r.all in
      chained (balance_at p.accounts id c) (balance_at (insert k r.after p.accounts) id c)
        (balance_at q.accounts id c) _ _
        (applied_balance k e r.before r.after p.accounts refl r.found r.well r.named r.ran id c)
        (rw r.accounts at later)
