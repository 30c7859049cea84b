-- ===== src/Ledger/Service/Order.antt =====
-- core/modules/ledger/application/service/ledger_service.go: in which order RecordLedgerEvents saves
-- the accounts of its events: each of them, and once.
use wechat_clone.Base.{
  ◌≡◌, refl, sym, subst, ◌⊎◌, inl, inr, String, Bool, true, false, ◌||◌, Option, none, some, List,
  [], ◌∷◌, ◌++◌, ◌==◌, arith, if◌then◌else◌, Bool-cases, Option-cases, eq_iff, eq_refl,
}
use wechat_clone.Base.Text.{trim_space}
use wechat_clone.Base.Maps.{Map, lookup, insert, lookup-delete, lookup-insert}
use wechat_clone.Base.Results.{Result, ok, err, chain-Passed}
use wechat_clone.Event.{Event}
use wechat_clone.Ledger.Posting.{LedgerError, LedgerEvent, one_of}
use wechat_clone.Ledger.Account.{LedgerAccountAggregate, apply_posting_event}
use wechat_clone.Ledger.Service.Record.{
  RecordError, Progress, order_after, distinct_accounts, advanced, applied_to, apply_event,
  apply_events,
}

-- What the body of the second loop has done where it returns no error.
pub record Advances (p : Progress) (e : Event LedgerEvent) (q : Progress) : Type 0 where
  pub before : LedgerAccountAggregate
  pub after : LedgerAccountAggregate
  pub applied : Bool
  pub found : lookup (trim_space e.aggregate_id) p.accounts ≡ some before
  pub ran : apply_posting_event before e.event_data ≡ (after, ok applied)
  pub next : q ≡ advanced p (trim_space e.aggregate_id) after applied

pub apply_event-Advances :
    (p q : Progress) (e : Event LedgerEvent) → apply_event p e ≡ ok q → Advances p e q
unfolding apply_event applied_to
apply_event-Advances p q e h = account (lookup (trim_space e.aggregate_id) p.accounts) refl h
  where
    ran :
        (a : LedgerAccountAggregate) (r : LedgerAccountAggregate × Result LedgerError Bool)
        → lookup (trim_space e.aggregate_id) p.accounts ≡ some a
        → apply_posting_event a e.event_data ≡ r
        → applied_to p (trim_space e.aggregate_id) r ≡ ok q
        → Advances p e q
    ran a (b, err x) f s g = cc
    ran a (b, ok t) f s g = record {
      before = a;
      after = b;
      applied = t;
      found = f;
      ran = s;
      next = cc g;
    }

    account :
        (o : Option LedgerAccountAggregate)
        → lookup (trim_space e.aggregate_id) p.accounts ≡ o
        → (elim o [
          | none ↦ err (RecordError.not_loaded (trim_space e.aggregate_id))
          | some a ↦ applied_to p (trim_space e.aggregate_id) (apply_posting_event a e.event_data)
        ])
          ≡ ok q
        → Advances p e q
    account none f g = cc
    account (some a) f g = ran a (apply_posting_event a e.event_data) f refl g

-- Whether one of the events is for the account.
abbrev pub addressed : String → List (Event LedgerEvent) → Bool
addressed id [] = false
addressed id (e ∷ es) = id == trim_space e.aggregate_id || addressed id es

abbrev pub AreDistinct : List String → Type 0
AreDistinct [] = Unit
AreDistinct (id ∷ ids) = (one_of id ids ≡ false) × AreDistinct ids

one_of-append :
    (id x : String) (ids : List String) → one_of id (ids ++ (x ∷ [])) ≡ (one_of id ids || id == x)
unfolding one_of
one_of-append id x [] = ground arith
one_of-append id x (y ∷ ids) = ground (arith, one_of-append id x ids)

append-AreDistinct :
    (x : String) (ids : List String)
    → one_of x ids ≡ false
    → AreDistinct ids
    → AreDistinct (ids ++ (x ∷ []))
unfolding one_of
append-AreDistinct x [] h d = (refl, tt)
append-AreDistinct x (y ∷ ids) h (n, d) = (
  rw (one_of-append y x ids) (ground (arith, eq_iff x y, eq_iff y x)),
  append-AreDistinct x ids (ground arith) d,
)

pub not_same : (a b : String) → (a == b) ≡ false → (b == a) ≡ false
not_same a b h = ground (arith, eq_iff a b, eq_iff b a)

-- The save order has no account twice, and none that is still to be seen.
pub record IsOrdered (p : Progress) : Type 0 where
  pub distinct : AreDistinct p.save_order
  pub apart : (id : String) → one_of id p.save_order ≡ true → lookup id p.seen ≡ none

module _ (p : Progress) (k : String) (b : LedgerAccountAggregate) (t : Bool) where
  advanced-IsOrdered : IsOrdered p → IsOrdered (advanced p k b t)
  advanced-IsOrdered o = elim (Option-cases (lookup k p.seen)) [
    | inl e ↦ rw e (record {
      distinct = o.distinct;
      apart = λ id h. rw (lookup-delete id k p.seen, o.apart id h) (ground arith);
    })
    | inr (u, e) ↦ rw e (record {
      distinct = append-AreDistinct k p.save_order (unseen u e) o.distinct;
      apart = λ id h.
          rw (lookup-delete id k p.seen) (deleted id (rw (one_of-append id k p.save_order) at h));
    })
  ]
    where
      unseen : (u : Unit {0}) → lookup k p.seen ≡ some u → one_of k p.save_order ≡ false
      unseen u e = elim (Bool-cases (one_of k p.save_order)) [
        | inl h ↦ absurd (cc (o.apart k h, e))
        | inr h ↦ h
      ]

      deleted :
          (id : String)
          → (one_of id p.save_order || id == k) ≡ true
          → (if id == k then none else lookup id p.seen) ≡ none
      deleted id h = elim (Bool-cases (id == k)) [
        | inl e ↦ rw e refl
        | inr e ↦ rw e (o.apart id (ground arith))
      ]

  -- An account in the save order stays there.
  advanced-kept :
      (id : String)
      → one_of id p.save_order ≡ true
      → one_of id ((advanced p k b t).save_order) ≡ true
  advanced-kept id h = kept (lookup k p.seen)
    where
      kept : (o : Option (Unit {0})) → one_of id (order_after o k p.save_order) ≡ true
      kept none = h
      kept (some u) = rw (one_of-append id k p.save_order, h) refl

  -- One that is to be seen, or that is in the order, is in the order once an event for it came.
  advanced-ordered :
      (lookup k p.seen ≡ some tt) ⊎ (one_of k p.save_order ≡ true)
      → one_of k ((advanced p k b t).save_order) ≡ true
  advanced-ordered (inr h) = advanced-kept k h
  advanced-ordered (inl h) =
      subst (λ (o : Option (Unit {0})). one_of k (order_after o k p.save_order) ≡ true) (sym h)
        (rw (one_of-append k k p.save_order, eq_refl k) (ground arith))

  -- Any other account is where it was.
  advanced-other :
      (id : String)
      → (id == k) ≡ false
      → (lookup id p.seen ≡ some tt) ⊎ (one_of id p.save_order ≡ true)
      → (lookup id ((advanced p k b t).seen) ≡ some tt)
        ⊎ (one_of id ((advanced p k b t).save_order) ≡ true)
  advanced-other id e (inl h) = inl (rw (lookup-delete id k p.seen, e) h)
  advanced-other id e (inr h) = inr (advanced-kept id h)

pub apply_events-IsOrdered :
    (p q : Progress) (es : List (Event LedgerEvent))
    → apply_events p es ≡ ok q
    → IsOrdered p
    → IsOrdered q
unfolding apply_events
apply_events-IsOrdered p q [] h o = let same : q ≡ p = cc h in rw same o
apply_events-IsOrdered p q (e ∷ es) h o =
    let step = chain-Passed (apply_event p e) _ h in
    let a = apply_event-Advances p step.value e step.first in
    apply_events-IsOrdered step.value q es step.rest
      (rw a.next (advanced-IsOrdered p (trim_space e.aggregate_id) a.after a.applied o))

apply_events-kept :
    (p q : Progress) (es : List (Event LedgerEvent)) (id : String)
    → apply_events p es ≡ ok q
    → one_of id p.save_order ≡ true
    → one_of id q.save_order ≡ true
unfolding apply_events
apply_events-kept p q [] id h o = let same : q ≡ p = cc h in rw same o
apply_events-kept p q (e ∷ es) id h o =
    let step = chain-Passed (apply_event p e) _ h in
    let a = apply_event-Advances p step.value e step.first in
    apply_events-kept step.value q es id step.rest
      (rw a.next (advanced-kept p (trim_space e.aggregate_id) a.after a.applied id o))

-- Every account that an event is for, and that was to be seen, is in the save order in the end.
pub apply_events-ordered :
    (p q : Progress) (es : List (Event LedgerEvent)) (id : String)
    → apply_events p es ≡ ok q
    → (lookup id p.seen ≡ some tt) ⊎ (one_of id p.save_order ≡ true)
    → addressed id es ≡ true
    → one_of id q.save_order ≡ true
unfolding apply_events
apply_events-ordered p q [] id h o f = cc
apply_events-ordered p q (e ∷ es) id h o f =
    let k = trim_space e.aggregate_id in
    let step = chain-Passed (apply_event p e) _ h in
    let a = apply_event-Advances p step.value e step.first in
    elim (Bool-cases (id == k)) [
      | inl same ↦
          let here = (eq_iff id k).0 same in
          apply_events-kept step.value q es id step.rest
            (rw (a.next, here) (advanced-ordered p k a.after a.applied (rw here at o)))
      | inr other ↦
          apply_events-ordered step.value q es id step.rest
            (rw a.next (advanced-other p k a.after a.applied id other o)) (rw other at f)
    ]

-- Every account that an event is for is loaded.
pub apply_events-found :
    (p q : Progress) (es : List (Event LedgerEvent)) (id : String)
    → apply_events p es ≡ ok q
    → addressed id es ≡ true
    → (a : LedgerAccountAggregate) × (lookup id p.accounts ≡ some a)
unfolding apply_events
apply_events-found p q [] id h f = absurd (cc f)
apply_events-found p q (e ∷ es) id h f =
    let k = trim_space e.aggregate_id in
    let step = chain-Passed (apply_event p e) _ h in
    let a = apply_event-Advances p step.value e step.first in
    elim (Bool-cases (id == k)) [
      | inl same ↦ (a.before, rw ((eq_iff id k).0 same) a.found)
      | inr other ↦
          let (b, there) = apply_events-found step.value q es id step.rest (rw other at f) in
          (b, rw (a.next, lookup-insert id k a.after p.accounts, not_same id k other) at there)
    ]

-- An account that no event is for is not saved.
pub apply_events-unordered :
    (p q : Progress) (es : List (Event LedgerEvent)) (id : String)
    → apply_events p es ≡ ok q
    → one_of id p.save_order ≡ false
    → addressed id es ≡ false
    → one_of id q.save_order ≡ false
unfolding apply_events
apply_events-unordered p q [] id h o f = let same : q ≡ p = cc h in rw same o
apply_events-unordered p q (e ∷ es) id h o f =
    let k = trim_space e.aggregate_id in
    let step = chain-Passed (apply_event p e) _ h in
    let a = apply_event-Advances p step.value e step.first in
    apply_events-unordered step.value q es id step.rest
      (rw a.next (later k (ground arith) (lookup k p.seen))) (ground arith)
  where
    later :
        (k : String)
        → (id == k) ≡ false
        → (o : Option (Unit {0})) → one_of id (order_after o k p.save_order) ≡ false
    later k n none = o
    later k n (some u) = rw (one_of-append id k p.save_order, o, n) refl

distinct_accounts-kept :
    (seen found : Map (Unit {0})) (ids ids' : List String) (es : List (Event LedgerEvent))
    (id : String)
    → distinct_accounts seen ids es ≡ ok (found, ids')
    → lookup id seen ≡ some tt
    → lookup id found ≡ some tt
unfolding distinct_accounts
distinct_accounts-kept seen found ids ids' [] id h o = ground arith
distinct_accounts-kept seen found ids ids' (e ∷ es) id h o =
    let k = trim_space e.aggregate_id in
    elim (Bool-cases (k == "")) [
      | inl blank ↦ absurd (cc (rw blank at h))
      | inr given ↦ elim (Option-cases (lookup k seen)) [
        | inl new ↦
            distinct_accounts-kept (insert k tt seen) found (ids ++ (k ∷ [])) ids' es id
              (rw (given, new) at h) (inserted k)
        | inr (u, known) ↦
            distinct_accounts-kept seen found ids ids' es id (rw (given, known) at h) o
      ]
    ]
  where
    inserted : (k : String) → lookup id (insert k tt seen) ≡ some tt
    inserted k = rw (lookup-insert id k tt seen) (ground arith)

-- The accounts of the events are those that are to be seen.
pub distinct_accounts-seen :
    (seen found : Map (Unit {0})) (ids ids' : List String) (es : List (Event LedgerEvent))
    (id : String)
    → distinct_accounts seen ids es ≡ ok (found, ids')
    → addressed id es ≡ true
    → lookup id found ≡ some tt
unfolding distinct_accounts
distinct_accounts-seen seen found ids ids' [] id h f = cc
distinct_accounts-seen seen found ids ids' (e ∷ es) id h f =
    let k = trim_space e.aggregate_id in
    elim (Bool-cases (k == "")) [
      | inl blank ↦ absurd (cc (rw blank at h))
      | inr given ↦ elim (Option-cases (lookup k seen)) [
        | inl new ↦
            let later : distinct_accounts (insert k tt seen) (ids ++ (k ∷ [])) es
                ≡ ok (found, ids') =
              rw (given, new) at h in
            elim (Bool-cases (id == k)) [
              | inl same ↦
                  distinct_accounts-kept (insert k tt seen) found (ids ++ (k ∷ [])) ids' es id later
                    (rw (lookup-insert id k tt seen) (ground (arith, eq_iff id k, eq_iff k id)))
              | inr other ↦
                  distinct_accounts-seen (insert k tt seen) found (ids ++ (k ∷ [])) ids' es id later
                    (rw other at f)
            ]
        | inr (u, known) ↦
            let later : distinct_accounts seen ids es ≡ ok (found, ids') = rw (given, known) at h in
            elim (Bool-cases (id == k)) [
              | inl same ↦
                  distinct_accounts-kept seen found ids ids' es id later
                    (rw ((eq_iff id k).0 same) known)
              | inr other ↦ distinct_accounts-seen seen found ids ids' es id later (rw other at f)
            ]
      ]
    ]
