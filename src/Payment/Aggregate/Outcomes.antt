-- ===== src/Payment/Aggregate/Outcomes.antt =====
-- core/modules/payment/domain/aggregate/payment_intent_aggregate.go: what each of the outcomes of a
-- report leaves of an aggregate whose intent has taken the transition.
use wechat_clone.Base.{ℕ, ◌≡◌, refl, inl, inr, String, Bool}
use wechat_clone.Base.Time.{Time}
use wechat_clone.Base.Results.{Result-cases}
use wechat_clone.Payment.Status.{
  failed, refunded, chargeback, PaymentTransitionType, to_none, to_pending, to_succeeded, to_failed,
  to_cancelled, to_refunded, to_chargeback,
}
use wechat_clone.Payment.Intent.{PaymentIntent, PaymentProviderResult, ProcessedPaymentEvent}
use wechat_clone.Payment.Events.{succeeded_name, refunded_name, chargeback_name}
use wechat_clone.Payment.Aggregate.{
  PaymentAggregate, Step, ◌>>◌, return, current_provider_result, new_processed_payment_event,
  new_processed_transition_event, record_processed_event, transition_idempotency_key,
}
use wechat_clone.Payment.Aggregate.Records.{
  record_checkout_session_event, record_payment_succeeded, record_payment_refunded,
  record_payment_chargeback,
}
use wechat_clone.Payment.Aggregate.Commands.{
  Mutation, is_persisted, record_failure, apply_success, apply_refund, apply_chargeback,
}
use wechat_clone.Payment.Aggregate.Sound.{Sound, Triple, bind-Triple}
use wechat_clone.Payment.Aggregate.Steps.{
  Stands, Creditable, Reversible, checkout_step, failed_step, succeeded_step, refunded_step,
  chargeback_step,
}

-- The two steps that keep the processed event change neither the intent nor the events.
module _ (now at : Time) (name : String) (P : PaymentAggregate → Type 0) where
  processed_step : Triple P (new_processed_transition_event now name at) P
  unfolding new_processed_transition_event
  processed_step a h =
      elim (Result-cases (
        new_processed_payment_event now a.state.intent.provider
          (transition_idempotency_key a.state.intent name) a.state.intent.transaction_id at)) [
            | inl (x, e) ↦ rw (e, new_processed_transition_event) h
            | inr (x, e) ↦ rw (e, new_processed_transition_event) h
          ]

module _ (c r : ℕ) (p : PaymentIntent) (x : ProcessedPaymentEvent) where
  keep_Sound : Triple (Sound c r p) (record_processed_event x) (Sound c r p)
  unfolding record_processed_event
  keep_Sound a s = record {
    intent = s.intent;
    identified = s.identified;
    credited = s.credited;
    reversed = s.reversed;
  }

  keep_Creditable : Triple (Creditable c r p) (record_processed_event x) (Creditable c r p)
  unfolding record_processed_event
  keep_Creditable a (s, e, h) = (keep_Sound a s, e, h)

  keep_Reversible :
      (status : String)
      → Triple (Reversible status c r p) (record_processed_event x) (Reversible status c r p)
  unfolding record_processed_event
  keep_Reversible status a (s, e, h) = (keep_Sound a s, e, h)

module _ {now at : Time} (c r : ℕ) {q : PaymentIntent} (result : PaymentProviderResult)
    (url : String) (emit : Bool) where
  module _ (stands : Stands now at result.external_ref q) where
    -- The checkout event, and the result that a command returns.
    abbrev pub last : Mutation → Step Mutation
    last m = record_checkout_session_event now url emit at >> return m

    pub ends : (m : Mutation) → Triple (Sound c r q) (last m) (Sound c r q)
    ends m =
        bind-Triple (Sound c r q) (Sound c r q) (Sound c r q)
          (record_checkout_session_event now url emit at) (λ _. return m)
          (checkout_step c r result stands url emit) (λ _ a s. s) (λ _ s. s)

    pub success_outcome :
        Triple (Creditable c r q) (apply_success now result url emit at) (Sound c r q)
    success_outcome =
        let P = Creditable c r q in
        let recorded : Step (Unit {0}) =
          λ a. record_payment_succeeded now (current_provider_result a.state.intent result) at a in
        bind-Triple P P (Sound c r q) (new_processed_transition_event now succeeded_name at)
          (λ x. record_processed_event x >> (recorded >> last is_persisted))
          (processed_step now at succeeded_name P)
          (λ x.
            bind-Triple P P (Sound c r q) (record_processed_event x)
              (λ _. recorded >> last is_persisted) (keep_Creditable c r q x)
              (λ _.
                bind-Triple P (Sound c r q) (Sound c r q) recorded (λ _. last is_persisted)
                  (succeeded_step c r result stands) (λ _. ends is_persisted) (λ _ s. s))
              (λ _ s. s.0))
          (λ _ s. s.0)

    pub refund_outcome :
        Triple (Reversible refunded c r q) (apply_refund now result url emit at) (Sound c r q)
    refund_outcome =
        let P = Reversible refunded c r q in
        let recorded : Step (Unit {0}) =
          λ a. record_payment_refunded now (current_provider_result a.state.intent result) at a in
        bind-Triple P P (Sound c r q) (new_processed_transition_event now refunded_name at)
          (λ x. record_processed_event x >> (recorded >> last is_persisted))
          (processed_step now at refunded_name P)
          (λ x.
            bind-Triple P P (Sound c r q) (record_processed_event x)
              (λ _. recorded >> last is_persisted) (keep_Reversible c r q x refunded)
              (λ _.
                bind-Triple P (Sound c r q) (Sound c r q) recorded (λ _. last is_persisted)
                  (refunded_step c r result stands) (λ _. ends is_persisted) (λ _ s. s))
              (λ _ s. s.0))
          (λ _ s. s.0)

    pub chargeback_outcome :
        Triple (Reversible chargeback c r q) (apply_chargeback now result url emit at) (Sound c r q)
    chargeback_outcome =
        let P = Reversible chargeback c r q in
        let recorded : Step (Unit {0}) =
          λ a. record_payment_chargeback now (current_provider_result a.state.intent result) at a in
        bind-Triple P P (Sound c r q) (new_processed_transition_event now chargeback_name at)
          (λ x. record_processed_event x >> (recorded >> last is_persisted))
          (processed_step now at chargeback_name P)
          (λ x.
            bind-Triple P P (Sound c r q) (record_processed_event x)
              (λ _. recorded >> last is_persisted) (keep_Reversible c r q x chargeback)
              (λ _.
                bind-Triple P (Sound c r q) (Sound c r q) recorded (λ _. last is_persisted)
                  (chargeback_step c r result stands) (λ _. ends is_persisted) (λ _ s. s))
              (λ _ s. s.0))
          (λ _ s. s.0)

    pub failure_step :
        (kind : PaymentTransitionType)
        → (kind ≡ to_failed → q.status ≡ failed)
        → Triple (Sound c r q) (record_failure now kind result at) (Sound c r q)
    failure_step to_none h a s = s
    failure_step to_pending h a s = s
    failure_step to_succeeded h a s = s
    failure_step to_failed h a s = failed_step c r result stands (h refl) a s
    failure_step to_cancelled h a s = s
    failure_step to_refunded h a s = s
    failure_step to_chargeback h a s = s
