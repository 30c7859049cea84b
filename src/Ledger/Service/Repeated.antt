-- ===== src/Ledger/Service/Repeated.antt =====
-- core/modules/ledger/application/service/ledger_service.go: the second loop of RecordLedgerEvents
-- where it applies no event.
use wechat_clone.Base.{
  ◌≡◌, refl, sym, ◌∙◌, inl, inr, ◌+◌, ◌≤◌, String, Bool, true, false, some, List, [], ◌∷◌, ◌==◌,
  arith, if◌then◌else◌, Bool-cases, eq_iff,
}
use wechat_clone.Base.Text.{trim_space}
use wechat_clone.Base.Maps.{Map, lookup, insert, lookup-insert}
use wechat_clone.Base.Results.{ok, chain-Passed}
use wechat_clone.Event.{Event}
use wechat_clone.Ledger.Posting.{LedgerEvent}
use wechat_clone.Ledger.Account.{LedgerAccountAggregate, apply_posting_event}
use wechat_clone.Ledger.Account.Commands.{run, apply_event as apply_event_command}
use wechat_clone.Ledger.Account.Settles.{IsWellFormed, run-Settles}
use wechat_clone.Ledger.Service.Record.{Progress, apply_event, apply_events}
use wechat_clone.Ledger.Service.Order.{apply_event-Advances}

-- The account of the event has posted it already: to apply it again changes nothing.
abbrev pub HasPosted : Map LedgerAccountAggregate → Event LedgerEvent → Type 0
HasPosted m e =
    (a : LedgerAccountAggregate) × (lookup (trim_space e.aggregate_id) m ≡ some a)
    × (apply_posting_event a e.event_data ≡ (a, ok false))

abbrev pub HavePosted : Map LedgerAccountAggregate → List (Event LedgerEvent) → Type 0
HavePosted m [] = Unit
HavePosted m (e ∷ es) = HasPosted m e × HavePosted m es

pub HavePosted-same :
    (m n : Map LedgerAccountAggregate) (es : List (Event LedgerEvent))
    → ((j : String) → lookup j m ≡ lookup j n)
    → HavePosted m es
    → HavePosted n es
HavePosted-same m n [] same h = tt
HavePosted-same m n (e ∷ es) same ((a, f, r), h) =
    ((a, sym (same (trim_space e.aggregate_id)) ∙ f, r), HavePosted-same m n es same h)

-- To write an account again that a map has already is to write nothing.
pub lookup-insert_again :
    (j k : String) (a : LedgerAccountAggregate) (m : Map LedgerAccountAggregate)
    → lookup k m ≡ some a
    → lookup j (insert k a m) ≡ lookup j m
lookup-insert_again j k a m f =
    rw (lookup-insert j k a m) (elim (Bool-cases (k == j)) [
      | inl e ↦ rw (e, ← (eq_iff k j).0 e, f) refl
      | inr e ↦ rw e refl
    ])

unchanged :
    (a b : LedgerAccountAggregate) (e : LedgerEvent)
    → IsWellFormed a
    → apply_posting_event a e ≡ (b, ok false)
    → b ≡ a
unfolding run
unchanged a b e w h =
    let s = run-Settles (apply_event_command e) a w tt in (unfold run in rw h at s)

apply_events-counts :
    (p q : Progress) (es : List (Event LedgerEvent))
    → apply_events p es ≡ ok q
    → p.applied_count ≤ q.applied_count
unfolding apply_events
apply_events-counts p q [] h = let same : q ≡ p = cc h in rw same (omega arith)
apply_events-counts p q (e ∷ es) h =
    let step = chain-Passed (apply_event p e) _ h in
    let a = apply_event-Advances p step.value e step.first in
    counts a.applied (rw a.next at (apply_events-counts step.value q es step.rest))
  where
    counts :
        (t : Bool)
        → (if t then p.applied_count + 1 else p.applied_count) ≤ q.applied_count
        → p.applied_count ≤ q.applied_count
    counts true h = omega arith
    counts false h = h

module _ (P : String → LedgerAccountAggregate → Type 0)
    (gives : (id : String) (a : LedgerAccountAggregate)
      → P id a
      → IsWellFormed a × (a.root.aggregate_id ≡ id)) where
  -- Where no event was applied, each of them was posted before.
  pub apply_events-HavePosted :
      (p q : Progress) (es : List (Event LedgerEvent))
      → apply_events p es ≡ ok q
      → q.applied_count ≡ p.applied_count
      → ((id : String) (a : LedgerAccountAggregate) → lookup id p.accounts ≡ some a → P id a)
      → HavePosted p.accounts es
  unfolding apply_events
  apply_events-HavePosted p q [] h n all = tt
  apply_events-HavePosted p q (e ∷ es) h n all =
      let k = trim_space e.aggregate_id in
      let step = chain-Passed (apply_event p e) _ h in
      let a = apply_event-Advances p step.value e step.first in
      let (t, m) =
        none_applied a.applied (rw a.next at (apply_events-counts step.value q es step.rest)) in
      let ran : apply_posting_event a.before e.event_data ≡ (a.after, ok false) = rw t at a.ran in
      let same : a.after ≡ a.before =
        unchanged a.before a.after e.event_data (gives k a.before (all k a.before a.found)).0 ran in
      let again : (j : String) → lookup j (insert k a.after p.accounts) ≡ lookup j p.accounts =
        λ j. rw same (lookup-insert_again j k a.before p.accounts a.found) in
      (
        (a.before, a.found, rw same at ran),
        HavePosted-same (insert k a.after p.accounts) p.accounts es again (
            rw a.next at (
              apply_events-HavePosted step.value q es step.rest (m ∙ rw (a.next, t) refl)
                (rw a.next (λ j b f. all j b (sym (again j) ∙ f))))),
      )
    where
      none_applied :
          (t : Bool)
          → (if t then p.applied_count + 1 else p.applied_count) ≤ q.applied_count
          → (t ≡ false) × (q.applied_count ≡ p.applied_count)
      none_applied true h = absurd (omega arith)
      none_applied false h = (refl, n)
