-- ===== src/Payment/Aggregate/Refines.antt =====
-- core/modules/payment/domain/aggregate/payment_intent_aggregate.go: the commands of the aggregate
-- against the entity's state machine.
use wechat_clone.Base.{
  ℕ, ◌≡◌, refl, sym, ◌∙◌, String, Bool, true, false, not, ◌&&◌, ◌||◌, arith, if◌then◌else◌,
}
use wechat_clone.Base.Time.{Time}
use wechat_clone.Payment.Status.{
  PaymentTransition, PaymentTransitionType, to_none, to_pending, to_succeeded, to_failed,
  to_cancelled, to_refunded, to_chargeback,
}
use wechat_clone.Payment.Intent.{PaymentIntent, PaymentProviderResult}
use wechat_clone.Payment.Aggregate.{PaymentAggregate, Step, ◌>>◌, return}
use wechat_clone.Payment.Aggregate.Records.{
  record_provider_state_changed, record_checkout_session_event,
}
use wechat_clone.Payment.Aggregate.Commands.{
  Mutation, is_duplicate, is_persisted, record_failure, apply_repeated_success, choose_success,
  choose_reversal,
}
use wechat_clone.Payment.Aggregate.Sound.{Sound, Triple, bind-Triple}
use wechat_clone.Payment.Aggregate.Steps.{state_changed_step, checkout_step}
use wechat_clone.Payment.Aggregate.Ready.{Ready}
use wechat_clone.Payment.Aggregate.Outcomes.{
  success_outcome, refund_outcome, chargeback_outcome, failure_step,
}

-- A step that is chosen by a test.
pub pick :
    {A : Type 0} (P : PaymentAggregate → Type 0) (b : Bool) (m n : Step A) (a : PaymentAggregate)
    → (b ≡ true → P (m a).0)
    → (b ≡ false → P (n a).0)
    → P ((if b then m else n) a).0
pick P true m n a h k = h refl
pick P false m n a h k = k refl

module _ {now at : Time} (c r : ℕ) {q : PaymentIntent} (result : PaymentProviderResult)
    (url : String) (emit : Bool) (t : PaymentTransition) (a : PaymentAggregate)
    (ready : Ready now at c r result.external_ref q t a) where
  -- A report that records the change of the state, the checkout event, and what follows.
  changed_then :
      (rest : Step Mutation)
      → (t.state_changed || t.external_ref_changed) ≡ true
      → Triple (Sound c r q) rest (Sound c r q)
      → Sound c r q
          ((record_provider_state_changed now t result at
              >> (record_checkout_session_event now url emit at >> rest))
            a).0
  changed_then rest e k =
      let stands = ready.stands e in
      bind-Triple (Sound c r q) (Sound c r q) (Sound c r q)
        (record_provider_state_changed now t result at)
        (λ _. record_checkout_session_event now url emit at >> rest)
        (state_changed_step c r result stands t ready.current ready.status)
        (λ _.
          bind-Triple (Sound c r q) (Sound c r q) (Sound c r q)
            (record_checkout_session_event now url emit at) (λ _. rest)
            (checkout_step c r result stands url emit) (λ _. k) (λ _ s. s))
        (λ _ s. s) a ready.sound

  repeated_success : Sound c r q (apply_repeated_success now t result url emit at a).0
  repeated_success =
      pick (Sound c r q) t.external_ref_changed _ _ a
        (λ e.
          changed_then (return (record { duplicate = true; persist = true })) (ground (arith, e))
            (λ a s. s))
        (λ e. ready.sound)

  chosen_success :
      (kind : PaymentTransitionType)
      → t.transition_type ≡ kind
      → Sound c r q (choose_success now kind t result url emit at a).0
  chosen_success to_none h = repeated_success
  chosen_success to_pending h = ready.sound
  chosen_success to_succeeded h =
      let e = ready.changed (λ k. cc (sym h ∙ k)) in
      success_outcome c r result url emit (ready.stands (rw e refl)) a (ready.creditable h)
  chosen_success to_failed h = ready.sound
  chosen_success to_cancelled h = ready.sound
  chosen_success to_refunded h = ready.sound
  chosen_success to_chargeback h = ready.sound

  chosen_reversal :
      (kind : PaymentTransitionType)
      → t.transition_type ≡ kind
      → Sound c r q (choose_reversal now kind result url emit at a).0
  chosen_reversal to_none h = ready.sound
  chosen_reversal to_pending h = ready.sound
  chosen_reversal to_succeeded h = ready.sound
  chosen_reversal to_failed h = ready.sound
  chosen_reversal to_cancelled h = ready.sound
  chosen_reversal to_refunded h =
      let e = ready.changed (λ k. cc (sym h ∙ k)) in
      refund_outcome c r result url emit (ready.stands (rw e refl)) a (rw h at ready.reversible tt)
  chosen_reversal to_chargeback h =
      let e = ready.changed (λ k. cc (sym h ∙ k)) in
      chargeback_outcome c r result url emit (ready.stands (rw e refl)) a
        (rw h at ready.reversible tt)

  -- The three outcomes, after the transition.
  pub non_final :
      Sound c r q
        ((if t.ignored || (not t.state_changed && not t.external_ref_changed)
            then return is_duplicate
            else record_provider_state_changed now t result at
              >> (record_checkout_session_event now url emit at
                  >> (record_failure now t.transition_type result at >> return is_persisted)))
          a).0
  non_final =
      pick (Sound c r q) (t.ignored || (not t.state_changed && not t.external_ref_changed)) _ _ a
        (λ _. ready.sound)
        (λ e.
          let some_change : (t.state_changed || t.external_ref_changed) ≡ true =
            ground (arith, e) in
          changed_then (record_failure now t.transition_type result at >> return is_persisted)
            some_change
            (bind-Triple (Sound c r q) (Sound c r q) (Sound c r q)
              (record_failure now t.transition_type result at) (λ _. return is_persisted)
              (failure_step c r result url emit (ready.stands some_change) t.transition_type
                ready.failing)
              (λ _ a s. s) (λ _ s. s)))

  pub successful :
      Sound c r q
        ((if t.ignored
            then apply_repeated_success now t result url emit at
            else choose_success now t.transition_type t result url emit at)
          a).0
  successful =
      pick (Sound c r q) t.ignored _ _ a (λ _. repeated_success)
        (λ _. chosen_success t.transition_type refl)

  pub reversing :
      Sound c r q
        ((if t.ignored
            then return is_duplicate
            else choose_reversal now t.transition_type result url emit at)
          a).0
  reversing =
      pick (Sound c r q) t.ignored _ _ a (λ _. ready.sound)
        (λ _. chosen_reversal t.transition_type refl)
