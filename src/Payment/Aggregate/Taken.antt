-- ===== src/Payment/Aggregate/Taken.antt =====
-- core/modules/payment/domain/aggregate/payment_intent_aggregate.go: what ApplyProviderOutcome and
-- MarkCreateFailed make of an aggregate.
use wechat_clone.Base.{
  ℕ, ◌≡◌, refl, sym, ap, ◌∙◌, String, Bool, true, false, not, ◌||◌, ◌==◌, arith, subst,
}
use wechat_clone.Base.Time.{Time, is_zero, time_or_now}
use wechat_clone.Base.Results.{Result, ok, err}
use wechat_clone.Payment.Status.{
  success, failed, refunded, chargeback, normalize_payment_status, PaymentTransition,
}
use wechat_clone.Payment.Intent.{PaymentIntent, PaymentError, PaymentProviderResult}
use wechat_clone.Payment.Aggregate.{
  PaymentAggregate, AggregateError, occurred_at_required, Step, ◌>>◌, return, throw,
  current_provider_result,
}
use wechat_clone.Payment.Aggregate.Records.{
  normalize_snapshot, transition_intent, transition_intent_state, transition_result,
  transition_state, record_payment_failed,
}
use wechat_clone.Payment.Aggregate.Commands.{
  Mutation, fail_creation, after_success, after_reversal, after_non_final, is_persisted,
  failed_result, apply_non_final_outcome, apply_successful_outcome, apply_reversed_outcome,
  apply_provider_outcome, mark_payment_create_failed,
}
use wechat_clone.Payment.Aggregate.Left.{
  Left, transition_intent-Left, transition_intent-err, transition_intent_state-Left,
  transition_intent_state_reached, transition_intent_state-err,
}
use wechat_clone.Payment.Aggregate.Sound.{Sound}
use wechat_clone.Payment.Aggregate.Ready.{Ready, put}
use wechat_clone.Payment.Aggregate.Refines.{pick, non_final, successful, reversing}
use wechat_clone.Payment.Aggregate.Steps.{Stands, failed_step}
use wechat_clone.Base.Text.{trim_space, to_upper}
use wechat_clone.Base.Text.Case.{upper_trimmed}
use wechat_clone.Payment.Aggregate.Steady.{Steady, Transitioned, transition_then}

-- A step that is followed by its result only.
then_return :
    (P : PaymentAggregate → Type 0) (m : Step (Unit {0})) (x : Mutation) (a : PaymentAggregate)
    → P (m a).0
    → P ((m >> return x) a).0
then_return P m x a h = go (m a).1
  where
    go :
        (y : Result AggregateError (Unit {0}))
        → P
            (elim y as (λ _. PaymentAggregate × Result AggregateError Mutation) [
              | err e ↦ ((m a).0, err e)
              | ok _ ↦ ((m a).0, ok x)
            ]).0
    go (err e) = h
    go (ok _) = h

failed_status : normalize_payment_status failed ≡ failed
unfolding normalize_payment_status upper_trimmed trim_space to_upper
failed_status = refl

time_or_now_twice : (now t : Time) → time_or_now now (time_or_now now t) ≡ time_or_now now t
time_or_now_twice now t = ground arith

-- The failure that MarkCreateFailed records is dated at the update of the intent.
record_failure_at :
    (now : Time) {at : Time} (c r : ℕ) {q : PaymentIntent} (a : PaymentAggregate)
    → Sound c r q a
    → Stands now at "" q
    → q.status ≡ failed
    → Sound c r q
        (record_payment_failed now
          (current_provider_result a.state.intent failed_result)
          a.state.intent.updated_at
          a).0
record_failure_at now {at} c r {q} a s stands h =
    let dated : time_or_now now q.updated_at ≡ q.updated_at =
      subst (λ (x : Time). time_or_now now x ≡ x) stands.stamp (time_or_now_twice now at) in
    let there : Stands now q.updated_at "" q = record {
      trimmed = stands.trimmed;
      quiet = stands.quiet;
      stamp = dated;
    } in
    subst
      (λ (x : PaymentIntent).
        Sound c r q
          (record_payment_failed now (current_provider_result a.state.intent failed_result)
            x.updated_at a).0)
      (sym s.intent) (failed_step c r failed_result there h a s)

module _ (now at : Time) (c r : ℕ) (result : PaymentProviderResult) (url : String) (emit : Bool)
    (a : PaymentAggregate) (steady : Steady c r a) where
  abbrev pub taken : Transitioned
  taken = transition_intent now a.state.intent result at

  pub went_wrong :
      (e : PaymentError) → taken.1 ≡ err e → normalize_snapshot now a.state.intent ≡ taken.0
  went_wrong e h =
      transition_intent-err now at a.state.intent taken.0 result e
        (ap {A = Result PaymentError PaymentTransition} {B = Transitioned} (λ y. (taken.0, y)) h)

  pub went :
      (t : PaymentTransition)
      → taken.1 ≡ ok t
      → Left now at (normalize_snapshot now a.state.intent).status result.external_ref taken.0 t
  went t h =
      transition_intent-Left now at a.state.intent taken.0 result t
        (ap {A = Result PaymentError PaymentTransition} {B = Transitioned} (λ y. (taken.0, y)) h)

  pub outcome-Sound :
      is_zero at ≡ false → Sound c r taken.0 (apply_provider_outcome now result url emit at a).0
  unfolding apply_provider_outcome apply_successful_outcome apply_reversed_outcome
      apply_non_final_outcome transition_result
  outcome-Sound h =
      let status = normalize_payment_status result.status in
      let after = transition_then now at c r result.external_ref a steady taken went_wrong went in
      let run = Sound c r taken.0 in
      pick run (is_zero at) (throw occurred_at_required) _ a (λ e. absurd (cc (h, e)))
        (λ _.
          pick run (status == success) (apply_successful_outcome now result url emit at) _ a
            (λ _.
              after (after_success now result url emit at)
                (λ t _ ready. successful c r result url emit t (put a taken.0) ready))
            (λ _.
              pick run (status == refunded || status == chargeback)
                (apply_reversed_outcome now result url emit at)
                (apply_non_final_outcome now result url emit at) a
                (λ _.
                  after (after_reversal now result url emit at)
                    (λ t _ ready. reversing c r result url emit t (put a taken.0) ready))
                (λ _.
                  after (after_non_final now result url emit at)
                    (λ t _ ready. non_final c r result url emit t (put a taken.0) ready))))

module _ (now at : Time) (c r : ℕ) (a : PaymentAggregate) (steady : Steady c r a) where
  abbrev pub failing_taken : Transitioned
  failing_taken = transition_intent_state now a.state.intent "" failed at

  pub failing_wrong :
      (e : PaymentError)
      → failing_taken.1 ≡ err e
      → normalize_snapshot now a.state.intent ≡ failing_taken.0
  failing_wrong e h =
      transition_intent_state-err now at a.state.intent failing_taken.0 "" failed e (
        ap {A = Result PaymentError PaymentTransition} {B = Transitioned}
          (λ y. (failing_taken.0, y)) h)

  module _ (t : PaymentTransition) (h : failing_taken.1 ≡ ok t) where
    whole : failing_taken ≡ (failing_taken.0, ok t)
    whole =
        ap {A = Result PaymentError PaymentTransition} {B = Transitioned}
          (λ y. (failing_taken.0, y)) h

    pub failing_went :
        Left now at (normalize_snapshot now a.state.intent).status "" failing_taken.0 t
    failing_went =
        transition_intent_state-Left now at a.state.intent failing_taken.0 "" failed t whole

    now_failed : t.state_changed ≡ true → failing_taken.0.status ≡ failed
    now_failed e =
        transition_intent_state_reached now at a.state.intent failing_taken.0 "" failed t whole e
        ∙ failed_status

  failed_creation :
      (t : PaymentTransition) (b : PaymentAggregate)
      → failing_taken.1 ≡ ok t
      → Ready now at c r "" failing_taken.0 t b
      → Sound c r failing_taken.0 (fail_creation now t b).0
  failed_creation t b h ready =
      pick (Sound c r failing_taken.0) (t.ignored || not t.state_changed) _ _ b (λ _. ready.sound)
        (λ e.
          let changed : t.state_changed ≡ true = ground (arith, e) in
          then_return (Sound c r failing_taken.0)
            (λ a.
              record_payment_failed now (current_provider_result a.state.intent failed_result)
                a.state.intent.updated_at a)
            is_persisted b
            (record_failure_at now c r b ready.sound (ready.stands (rw changed refl))
              (now_failed t h changed)))

  pub create_failed-Sound :
      is_zero at ≡ false → Sound c r failing_taken.0 (mark_payment_create_failed now at a).0
  unfolding mark_payment_create_failed transition_state
  create_failed-Sound h =
      pick (Sound c r failing_taken.0) (is_zero at) (throw occurred_at_required) _ a
        (λ e. absurd (cc (h, e)))
        (λ _.
          transition_then now at c r "" a steady failing_taken failing_wrong failing_went
            (fail_creation now) (λ t h ready. failed_creation t (put a failing_taken.0) h ready))
