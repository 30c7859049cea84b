-- ===== src/Payment/Aggregate/Once.antt =====
-- core/modules/payment/domain/aggregate/payment_intent_aggregate.go: over the life of an aggregate,
-- its intent follows the entity's state machine, and a payment is credited and reversed at most
-- once.
use wechat_clone.Base.{
  ℕ, ◌+◌, ◌*◌, ◌≤◌, ◌≡◌, refl, ap, ◌∙◌, inl, inr, String, Bool, true, false, ◌==◌, arith,
  Bool-cases, if◌then◌else◌, List, [], ◌∷◌, ◌++◌, leb,
}
use wechat_clone.Base.Time.{Time, is_zero}
use wechat_clone.Base.Results.{Result}
use wechat_clone.Event.{Event, AggregateRoot, mark_persisted}
use wechat_clone.Payment.Status.{PaymentTransition}
use wechat_clone.Payment.Status.Moves.{rank}
use wechat_clone.Payment.Intent.{
  PaymentIntent, PaymentError, PaymentProviderResult, transition_provider_result,
}
use wechat_clone.Payment.Events.{PaymentEvent}
use wechat_clone.Payment.Aggregate.{PaymentAggregate}
use wechat_clone.Payment.Aggregate.Commands.{
  apply_provider_outcome, mark_payment_create_failed, mark_payment_persisted,
}
use wechat_clone.Payment.Aggregate.Entity.{stamped, transition_intent-eq-transition_provider_result}
use wechat_clone.Payment.Aggregate.Sound.{credits, reversals, credits-append, reversals-append}
use wechat_clone.Payment.Aggregate.Steady.{standing, Steady, Sound-Steady, left_status}
use wechat_clone.Payment.Aggregate.Taken.{
  taken, went_wrong, went, outcome-Sound, failing_taken, failing_wrong, failing_went,
  create_failed-Sound,
}

-- The life of an aggregate: any calls, each one successful or not, and what is published of its
-- events whenever it is persisted.
pub data Handled (a : PaymentAggregate)
    : List (Event PaymentEvent) → PaymentAggregate → Type 0 where
  start : Handled a [] a
  reported :
      {es : List (Event PaymentEvent)} {b : PaymentAggregate} (now at : Time)
      (result : PaymentProviderResult) (url : String) (emit : Bool)
      → Handled a es b
      → Handled a es (apply_provider_outcome now result url emit at b).0
  create_failed :
      {es : List (Event PaymentEvent)} {b : PaymentAggregate} (now at : Time)
      → Handled a es b
      → Handled a es (mark_payment_create_failed now at b).0
  persisted :
      {es : List (Event PaymentEvent)} {b : PaymentAggregate}
      → Handled a es b
      → Handled a (es ++ b.root.events) (mark_payment_persisted b)

-- A call with no time does nothing.
outcome_zero :
    (now at : Time) (result : PaymentProviderResult) (url : String) (emit : Bool)
    (a : PaymentAggregate)
    → is_zero at ≡ true
    → (apply_provider_outcome now result url emit at a).0 ≡ a
unfolding apply_provider_outcome
outcome_zero now at result url emit a h = rw h refl

create_failed_zero :
    (now at : Time) (a : PaymentAggregate)
    → is_zero at ≡ true
    → (mark_payment_create_failed now at a).0 ≡ a
unfolding mark_payment_create_failed
create_failed_zero now at a h = rw h refl

persisted_root :
    (r : AggregateRoot PaymentEvent)
    → ((mark_persisted r).events ≡ []) × ((mark_persisted r).aggregate_id ≡ r.aggregate_id)
unfolding mark_persisted
persisted_root r = go r.events refl
  where
    go :
        (es : List (Event PaymentEvent))
        → r.events ≡ es
        → ((mark_persisted r).events ≡ []) × ((mark_persisted r).aggregate_id ≡ r.aggregate_id)
    go [] q = simp (q, mark_persisted) (refl, refl)
    go (e ∷ es) q = simp (q, mark_persisted) (refl, refl)

persisted-Steady :
    (c r : ℕ) (b : PaymentAggregate)
    → Steady c r b
    → Steady (c + credits b.root.events) (r + reversals b.root.events) (mark_payment_persisted b)
unfolding mark_payment_persisted
persisted-Steady c r b s =
    let (none_left, same) = persisted_root b.root in
    record {
      identified = rw same s.identified;
      credited = rw none_left (omega (arith, s.credited));
      reversed = rw none_left (omega (arith, s.reversed));
    }

module _ (c r : ℕ) {a : PaymentAggregate} (first : Steady c r a) where
  Handled-Steady :
      {es : List (Event PaymentEvent)} {b : PaymentAggregate}
      → Handled a es b
      → Steady (c + credits es) (r + reversals es) b
  Handled-Steady start = record {
    identified = first.identified;
    credited = omega (arith, first.credited);
    reversed = omega (arith, first.reversed);
  }
  Handled-Steady (reported {es} {b} now at result url emit before) =
      let s = Handled-Steady before in
      elim (Bool-cases (is_zero at)) [
        | inl e ↦ rw (outcome_zero now at result url emit b e) s
        | inr e ↦
            let k = c + credits es in
            let l = r + reversals es in
            Sound-Steady k l (taken now at k l result url emit b s).0
              (apply_provider_outcome now result url emit at b).0
              (left_status now at k l result.external_ref b s (taken now at k l result url emit b s)
                (went_wrong now at k l result url emit b s) (went now at k l result url emit b s))
              (outcome-Sound now at k l result url emit b s e)
      ]
  Handled-Steady (create_failed {es} {b} now at before) =
      let s = Handled-Steady before in
      elim (Bool-cases (is_zero at)) [
        | inl e ↦ rw (create_failed_zero now at b e) s
        | inr e ↦
            let k = c + credits es in
            let l = r + reversals es in
            Sound-Steady k l (failing_taken now at k l b s).0
              (mark_payment_create_failed now at b).0
              (left_status now at k l "" b s (failing_taken now at k l b s)
                (failing_wrong now at k l b s) (failing_went now at k l b s))
              (create_failed-Sound now at k l b s e)
      ]
  Handled-Steady (persisted {es} {b} before) =
      let s = Handled-Steady before in
      let p = persisted-Steady (c + credits es) (r + reversals es) b s in
      record {
        identified = p.identified;
        credited = omega (arith, p.credited, credits-append es b.root.events);
        reversed = omega (arith, p.reversed, reversals-append es b.root.events);
      }

-- What stands in for the events of an aggregate's past: its status says whether the payment can
-- still be credited, and whether it can be reversed.
abbrev pub is_settled : PaymentAggregate → ℕ
is_settled a = if leb 2 (rank (standing a.state.intent)) then 1 else 0

abbrev pub is_final : PaymentAggregate → ℕ
is_final a = if leb 3 (rank (standing a.state.intent)) then 1 else 0

start-Steady :
    (a : PaymentAggregate)
    → (a.root.aggregate_id == "") ≡ false
    → a.root.events ≡ []
    → Steady (is_settled a) (is_final a) a
start-Steady a i h =
    let no_credit : credits a.root.events ≡ 0 = ap credits h in
    let no_reversal : reversals a.root.events ≡ 0 = ap reversals h in
    let r = rank (standing a.state.intent) in
    record {
      identified = i;
      credited = settles r (credits a.root.events) no_credit;
      reversed = finishes r (reversals a.root.events) no_reversal;
    }
  where
    settles : (r n : ℕ) → n ≡ 0 → ((if leb 2 r then 1 else 0) + n) * 2 ≤ r
    settles r n e = ground (arith, e)

    finishes : (r n : ℕ) → n ≡ 0 → ((if leb 3 r then 1 else 0) + n) * 3 ≤ r
    finishes r n e = ground (arith, e)

rank-le-3 : (s : String) → rank s ≤ 3
rank-le-3 s = ground arith

-- Whatever reports an aggregate with an identifier and no pending event receives, and however often
-- it is persisted, of all its events at most one says that the payment has succeeded, and none does
-- if its status was past that; and at most one is a refund or a chargeback, none if its status was
-- final.
pub credited_once :
    {a b : PaymentAggregate} {es : List (Event PaymentEvent)}
    → (a.root.aggregate_id == "") ≡ false
    → a.root.events ≡ []
    → Handled a es b
    → (is_settled a + credits (es ++ b.root.events) ≤ 1)
      × (is_final a + reversals (es ++ b.root.events) ≤ 1)
credited_once {a} {b} {es} i h life =
    let s = Handled-Steady (is_settled a) (is_final a) (start-Steady a i h) life in
    let top = rank-le-3 (standing b.state.intent) in
    (
      omega (arith, s.credited, top, credits-append es b.root.events),
      omega (arith, s.reversed, top, reversals-append es b.root.events),
    )

-- In the life of such an aggregate, ApplyProviderOutcome with a time leaves the intent that the
-- entity's TransitionProviderResult makes of it, whether it succeeds or fails: what it records
-- changes nothing of the intent beyond that.
pub outcome_refines :
    {a b : PaymentAggregate} {es : List (Event PaymentEvent)}
    → (a.root.aggregate_id == "") ≡ false
    → a.root.events ≡ []
    → Handled a es b
    → (now at : Time) (result : PaymentProviderResult) (url : String) (emit : Bool)
    → is_zero at ≡ false
    → (apply_provider_outcome now result url emit at b).0.state.intent
      ≡ (transition_provider_result now (stamped now b.state.intent) result at).0
outcome_refines {a} {b} {es} i h life now at result url emit z =
    let s = Handled-Steady (is_settled a) (is_final a) (start-Steady a i h) life in
    let sound =
      outcome-Sound now at (is_settled a + credits es) (is_final a + reversals es) result url emit b
        s z in
    sound.intent
    ∙ ap (λ (x : PaymentIntent × Result PaymentError PaymentTransition). x.0)
        (transition_intent-eq-transition_provider_result now at b.state.intent result)
