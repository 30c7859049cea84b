-- ===== src/Payment/Aggregate/Steps.antt =====
-- core/modules/payment/domain/aggregate/payment_intent_aggregate.go: the record methods keep the
-- intent that the transition has left, and the count of its events.
use wechat_clone.Base.{
  ℕ, ◌+◌, ◌≤◌, ◌≡◌, refl, sym, String, Bool, false, not, ◌||◌, arith, subst, inl, inr, Bool-cases,
  eq_iff,
}
use wechat_clone.Base.Int.{ℤ}
use wechat_clone.Base.Text.{trim_space}
use wechat_clone.Base.Time.{Time, time_or_now}
use wechat_clone.Payment.Status.{
  success, failed, refunded, chargeback, normalize_payment_status_or_pending, PaymentTransition,
}
use wechat_clone.Payment.Status.Moves.{rank}
use wechat_clone.Payment.Intent.{PaymentIntent, PaymentProviderResult, or_default}
use wechat_clone.Payment.Intent.Settled.{IsStatus, sets_ref}
use wechat_clone.Payment.Events.{
  PaymentEvent, payment_succeeded, payment_failed, payment_refunded, payment_chargeback,
  provider_state_changed, checkout_session_created, succeeded_name, refunded_name, chargeback_name,
}
use wechat_clone.Payment.Aggregate.{
  PaymentAggregate, apply_payment_event, apply_payment_outcome, apply_provider_state_changed,
  apply_checkout_session_created, coalesce, current_provider_result, state_changed_of, checkout_of,
  outcome_of, amount_or_default, apply_change_at, transition_idempotency_key,
}
use wechat_clone.Payment.Aggregate.Records.{
  record_provider_state_changed, record_checkout_session_event, record_payment_succeeded,
  record_payment_failed, record_payment_refunded, record_payment_chargeback,
  should_emit_checkout_session_created,
}
use wechat_clone.Payment.Aggregate.Sound.{
  Sound, Triple, credit, reversal, credits, reversals, record-Sound,
}

-- An intent that a report with the reference `ref` at the time `at` has left.
pub record Stands (now at : Time) (ref : String) (p : PaymentIntent) : Type 0 where
  pub trimmed : trim_space p.external_ref ≡ p.external_ref
  pub quiet : sets_ref p.external_ref ref ≡ false
  pub stamp : time_or_now now at ≡ p.updated_at

module _ {now at : Time} {p : PaymentIntent} (result : PaymentProviderResult)
    (s : Stands now at result.external_ref p) where
  -- The reference that the events carry is the intent's.
  current_ref : coalesce result.external_ref p.external_ref ≡ p.external_ref
  unfolding coalesce
  current_ref =
      ground (arith, s.trimmed, s.quiet, eq_iff (trim_space result.external_ref) p.external_ref)

  own_ref : coalesce p.external_ref p.external_ref ≡ p.external_ref
  unfolding coalesce
  own_ref = ground (arith, s.trimmed)

  kept_ref : or_default (trim_space p.external_ref) p.external_ref ≡ p.external_ref
  kept_ref = ground (arith, s.trimmed)

  outcome_same :
      (status : String) (amount : ℤ)
      → p.status ≡ status
      → let current = current_provider_result p result in
        apply_payment_outcome now status p (outcome_of p current amount at) ≡ p
  unfolding apply_payment_outcome current_provider_result
  outcome_same status amount h = simp (current_ref, own_ref, kept_ref, s.stamp, sym h)

  state_changed_same :
      (t : PaymentTransition)
      → t.current_status ≡ p.status
      → IsStatus p.status
      → apply_provider_state_changed now p
          (state_changed_of p t (current_provider_result p result) at)
        ≡ p
  unfolding apply_provider_state_changed current_provider_result
  state_changed_same t h (fixed, known) = simp (h, fixed, known, current_ref, kept_ref, s.stamp)

  checkout_same : (url : String) → apply_checkout_session_created now p (checkout_of p url at) ≡ p
  unfolding apply_checkout_session_created
  checkout_same url = simp (kept_ref, s.stamp)

-- No credit has been published or recorded, and the status is that of a success.
abbrev pub Creditable : ℕ → ℕ → PaymentIntent → PaymentAggregate → Type 0
Creditable c r p a = Sound c r p a × (c + credits a.root.events ≡ 0) × (p.status ≡ success)

-- No reversal has, and the status is the given one, which is final.
abbrev pub Reversible : String → ℕ → ℕ → PaymentIntent → PaymentAggregate → Type 0
Reversible status c r p a = Sound c r p a × (r + reversals a.root.events ≡ 0) × (p.status ≡ status)

-- The steps, on an aggregate of this intent.
module _ {now at : Time} (c r : ℕ) {p : PaymentIntent} (result : PaymentProviderResult)
    (stands : Stands now at result.external_ref p) where
  -- An event made of the aggregate's intent, which is `p`.
  at_intent :
      (f : PaymentIntent → PaymentEvent) (a : PaymentAggregate)
      → a.state.intent ≡ p
      → Sound c r p (apply_change_at now (f p) a).0
      → Sound c r p (apply_change_at now (f a.state.intent) a).0
  at_intent f a h k =
      subst (λ (x : PaymentIntent). Sound c r p (apply_change_at now (f x) a).0) (sym h) k

  plain_step :
      (f : PaymentIntent → PaymentEvent) (a : PaymentAggregate)
      → apply_payment_event now p (f p) ≡ p
      → credit (f p) ≡ 0
      → reversal (f p) ≡ 0
      → Sound c r p a
      → Sound c r p (apply_change_at now (f a.state.intent) a).0
  plain_step f a same no_credit no_reversal s = at_intent f a s.intent (
      record-Sound now c r p (f p) same a s (omega (arith, s.credited, no_credit))
        (omega (arith, s.reversed, no_reversal)))

  pub state_changed_step :
      (t : PaymentTransition)
      → t.current_status ≡ p.status
      → IsStatus p.status
      → Triple (Sound c r p) (record_provider_state_changed now t result at) (Sound c r p)
  unfolding record_provider_state_changed
  state_changed_step t h k a s =
      plain_step
        (λ q. provider_state_changed (state_changed_of q t (current_provider_result q result) at)) a
        (state_changed_same result stands t h k) refl refl s

  pub checkout_step :
      (url : String) (emit : Bool)
      → Triple (Sound c r p) (record_checkout_session_event now url emit at) (Sound c r p)
  unfolding record_checkout_session_event
  checkout_step url emit a s =
      elim (Bool-cases
        (not emit || not (should_emit_checkout_session_created now a.state.intent url))) [
          | inl e ↦ rw e s
          | inr e ↦ rw e (
              plain_step (λ q. checkout_session_created (checkout_of q url at)) a
                (checkout_same result stands url) refl refl s)
        ]

  pub failed_step :
      p.status ≡ failed
      → Triple
          (Sound c r p)
          (λ a. record_payment_failed now (current_provider_result a.state.intent result) at a)
          (Sound c r p)
  unfolding record_payment_failed
  failed_step h a s =
      plain_step
        (λ q.
          let current = current_provider_result q result in
          payment_failed (outcome_of q current q.amount at)
            (normalize_payment_status_or_pending current.status))
        a (outcome_same result stands failed p.amount h) refl refl s

  pub succeeded_step :
      Triple
        (Creditable c r p)
        (λ a. record_payment_succeeded now (current_provider_result a.state.intent result) at a)
        (Sound c r p)
  unfolding record_payment_succeeded
  succeeded_step a (s, none_yet, h) =
      let d = λ (q : PaymentIntent).
        payment_succeeded (outcome_of q (current_provider_result q result) q.amount at)
          (transition_idempotency_key q succeeded_name) in
      let full : 2 ≤ rank p.status = rw h (omega arith) in
      at_intent d a s.intent (
        record-Sound now c r p (d p) (outcome_same result stands success p.amount h) a s
          (omega (arith, none_yet, full)) (omega (arith, s.reversed)))

  pub refunded_step :
      Triple
        (Reversible refunded c r p)
        (λ a. record_payment_refunded now (current_provider_result a.state.intent result) at a)
        (Sound c r p)
  unfolding record_payment_refunded
  refunded_step a (s, none_yet, h) =
      let d = λ (q : PaymentIntent).
        let current = current_provider_result q result in
        payment_refunded (outcome_of q current (amount_or_default current.amount q.amount) at)
          (transition_idempotency_key q refunded_name) in
      let full : 3 ≤ rank p.status = rw h (omega arith) in
      at_intent d a s.intent (
        record-Sound now c r p (d p) (outcome_same result stands refunded _ h) a s
          (omega (arith, s.credited)) (omega (arith, none_yet, full)))

  pub chargeback_step :
      Triple
        (Reversible chargeback c r p)
        (λ a. record_payment_chargeback now (current_provider_result a.state.intent result) at a)
        (Sound c r p)
  unfolding record_payment_chargeback
  chargeback_step a (s, none_yet, h) =
      let d = λ (q : PaymentIntent).
        let current = current_provider_result q result in
        payment_chargeback (outcome_of q current (amount_or_default current.amount q.amount) at)
          (transition_idempotency_key q chargeback_name) in
      let full : 3 ≤ rank p.status = rw h (omega arith) in
      at_intent d a s.intent (
        record-Sound now c r p (d p) (outcome_same result stands chargeback _ h) a s
          (omega (arith, s.credited)) (omega (arith, none_yet, full)))
