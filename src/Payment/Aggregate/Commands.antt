-- ===== src/Payment/Aggregate/Commands.antt =====
-- core/modules/payment/domain/aggregate/payment_intent_aggregate.go: the constructors and the
-- commands of the aggregate.
use wechat_clone.Base.{String, Bool, true, false, not, ◌&&◌, ◌||◌, [], ◌==◌, if◌then◌else◌}
use wechat_clone.Base.Int.{ℤ, pos, pos_part}
use wechat_clone.Base.Time.{Time, is_zero}
use wechat_clone.Base.Maps.{Map}
use wechat_clone.Base.Results.{Result, ok, err}
use wechat_clone.Event.{zero_root, init_aggregate, set_internal, mark_persisted}
use wechat_clone.Payment.Status.{
  success, failed, refunded, chargeback, normalize_payment_status, PaymentTransition,
  PaymentTransitionType, to_none, to_succeeded, to_failed, to_refunded, to_chargeback,
}
use wechat_clone.Payment.Intent.{
  PaymentError, PaymentIntent, PaymentProviderResult, new_provider_top_up_intent,
  new_provider_withdrawal_intent,
}
use wechat_clone.Payment.Events.{succeeded_name, refunded_name, chargeback_name}
use wechat_clone.Payment.Aggregate.{
  PaymentAggregate, AggregateError, occurred_at_required, intent_error, root_error, Step, ◌>>=◌,
  ◌>>◌, throw, return, the_intent, throw, current_provider_result, new_processed_transition_event,
  record_processed_event,
}
use wechat_clone.Payment.Aggregate.Records.{
  normalize_snapshot, transition_state, transition_result, record_payment_created,
  record_withdrawal_requested, record_provider_state_changed, record_checkout_session_event,
  record_payment_succeeded, record_payment_failed, record_payment_refunded,
  record_payment_chargeback,
}

-- `PaymentIntentMutation`
pub record Mutation : Type 0 where
  pub duplicate : Bool
  pub persist : Bool

abbrev pub is_duplicate : Mutation
is_duplicate = record { duplicate = true; persist = false }

abbrev pub is_persisted : Mutation
is_persisted = record { duplicate = false; persist = true }

-- A result without a transition to take: its status only.
abbrev pub failed_result : PaymentProviderResult
failed_result = record {
  transaction_id = "";
  event_id = "";
  event_type = "";
  status = failed;
  amount = pos 0;
  currency = "";
  external_ref = "";
}

module _ (now : Time) where
  -- `recordPaymentFailed`, where the transition is to the failed status
  abbrev pub record_failure : PaymentTransitionType → PaymentProviderResult → Time → Step (Unit {0})
  record_failure to_failed result at = do
    p ← the_intent
    record_payment_failed now (current_provider_result p result) at
  record_failure _ result at = return tt

  -- What `applyNonFinalOutcome` does after the transition.
  abbrev pub after_non_final :
      PaymentProviderResult → String → Bool → Time → PaymentTransition → Step Mutation
  after_non_final result url emit at t =
      if t.ignored || (not t.state_changed && not t.external_ref_changed)
      then return is_duplicate
      else do
        record_provider_state_changed now t result at
        record_checkout_session_event now url emit at
        record_failure t.transition_type result at
        return is_persisted

  -- `applyNonFinalOutcome`
  unfoldable pub apply_non_final_outcome :
      PaymentProviderResult → String → Bool → Time → Step Mutation
  unfolding transition_result record_provider_state_changed record_checkout_session_event
      record_payment_failed
  apply_non_final_outcome result url emit at =
      transition_result now result at >>= after_non_final result url emit at

  -- What `applySuccessfulOutcome` does where there is no transition.
  abbrev pub apply_repeated_success :
      PaymentTransition → PaymentProviderResult → String → Bool → Time → Step Mutation
  apply_repeated_success t result url emit at =
      if t.external_ref_changed
      then (do
        record_provider_state_changed now t result at
        record_checkout_session_event now url emit at
        return (record { duplicate = true; persist = true }))
      else return is_duplicate

  abbrev pub apply_success : PaymentProviderResult → String → Bool → Time → Step Mutation
  apply_success result url emit at = do
    x ← new_processed_transition_event now succeeded_name at
    record_processed_event x
    p ← the_intent
    record_payment_succeeded now (current_provider_result p result) at
    record_checkout_session_event now url emit at
    return is_persisted

  abbrev pub choose_success :
      PaymentTransitionType
      → PaymentTransition
      → PaymentProviderResult
      → String
      → Bool
      → Time
      → Step Mutation
  choose_success to_none t result url emit at = apply_repeated_success t result url emit at
  choose_success to_succeeded t result url emit at = apply_success result url emit at
  choose_success _ t result url emit at = return is_duplicate

  -- What `applySuccessfulOutcome` does after the transition.
  abbrev pub after_success :
      PaymentProviderResult → String → Bool → Time → PaymentTransition → Step Mutation
  after_success result url emit at t =
      if t.ignored
      then apply_repeated_success t result url emit at
      else choose_success t.transition_type t result url emit at

  -- `applySuccessfulOutcome`
  unfoldable pub apply_successful_outcome :
      PaymentProviderResult → String → Bool → Time → Step Mutation
  unfolding transition_result record_provider_state_changed record_checkout_session_event
      new_processed_transition_event record_processed_event record_payment_succeeded
  apply_successful_outcome result url emit at =
      transition_result now result at >>= after_success result url emit at

  abbrev pub apply_refund : PaymentProviderResult → String → Bool → Time → Step Mutation
  apply_refund result url emit at = do
    x ← new_processed_transition_event now refunded_name at
    record_processed_event x
    p ← the_intent
    record_payment_refunded now (current_provider_result p result) at
    record_checkout_session_event now url emit at
    return is_persisted

  abbrev pub apply_chargeback : PaymentProviderResult → String → Bool → Time → Step Mutation
  apply_chargeback result url emit at = do
    x ← new_processed_transition_event now chargeback_name at
    record_processed_event x
    p ← the_intent
    record_payment_chargeback now (current_provider_result p result) at
    record_checkout_session_event now url emit at
    return is_persisted

  abbrev pub choose_reversal :
      PaymentTransitionType → PaymentProviderResult → String → Bool → Time → Step Mutation
  choose_reversal to_refunded result url emit at = apply_refund result url emit at
  choose_reversal to_chargeback result url emit at = apply_chargeback result url emit at
  choose_reversal _ result url emit at = return is_duplicate

  -- What `applyReversedOutcome` does after the transition.
  abbrev pub after_reversal :
      PaymentProviderResult → String → Bool → Time → PaymentTransition → Step Mutation
  after_reversal result url emit at t =
      if t.ignored
      then return is_duplicate
      else choose_reversal t.transition_type result url emit at

  -- `applyReversedOutcome`
  unfoldable pub apply_reversed_outcome :
      PaymentProviderResult → String → Bool → Time → Step Mutation
  unfolding transition_result new_processed_transition_event record_processed_event
      record_payment_refunded record_payment_chargeback record_checkout_session_event
  apply_reversed_outcome result url emit at =
      transition_result now result at >>= after_reversal result url emit at

  -- `ApplyProviderOutcome`
  unfoldable pub apply_provider_outcome :
      PaymentProviderResult → String → Bool → Time → Step Mutation
  unfolding apply_successful_outcome apply_reversed_outcome apply_non_final_outcome
  apply_provider_outcome result url emit at =
      let status = normalize_payment_status result.status in
      if is_zero at
      then throw occurred_at_required
      else if status == success
      then apply_successful_outcome result url emit at
      else if status == refunded || status == chargeback
      then apply_reversed_outcome result url emit at
      else apply_non_final_outcome result url emit at

  -- What `MarkCreateFailed` does after the transition.
  abbrev pub fail_creation : PaymentTransition → Step Mutation
  fail_creation t = if t.ignored || not t.state_changed then return is_duplicate else do
    p ← the_intent
    record_payment_failed now (current_provider_result p failed_result) p.updated_at
    return is_persisted

  -- `MarkCreateFailed`
  unfoldable pub mark_payment_create_failed : Time → Step Mutation
  unfolding transition_state record_payment_failed
  mark_payment_create_failed at =
      if is_zero at
      then throw occurred_at_required
      else (transition_state now "" failed at >>= fail_creation)

  -- `newPaymentIntentAggregate`
  unfoldable pub new_payment_intent_aggregate :
      PaymentIntent → Result AggregateError PaymentAggregate
  new_payment_intent_aggregate p =
      elim (init_aggregate zero_root "PaymentIntentAggregate" p.transaction_id) [
        | err e ↦ err (root_error e)
        | ok root ↦
            ok (record { root = root; state = record { intent = p; processed_events = [] } })
      ]

  -- A constructor: the intent, its aggregate, and what is recorded of it; nil where one fails.
  unfoldable pub construct :
      Result PaymentError PaymentIntent → Step (Unit {0}) → Result AggregateError PaymentAggregate
  unfolding new_payment_intent_aggregate
  construct p recorded = elim p [
    | err e ↦ err (intent_error e)
    | ok p ↦ elim (new_payment_intent_aggregate p) [
      | err e ↦ err e
      | ok a ↦ elim (recorded a).1 [ err e ↦ err e | ok _ ↦ ok (recorded a).0 ]
    ]
  ]

  -- `NewProviderTopUpAggregate`
  unfoldable pub new_provider_top_up_aggregate :
      (transaction_id provider : String) (amount fee : ℤ) (currency account : String)
      (metadata : Map String) (at : Time)
      → Result AggregateError PaymentAggregate
  unfolding construct
  new_provider_top_up_aggregate transaction_id provider amount fee currency account metadata at =
      if is_zero at
      then err occurred_at_required
      else construct
          (new_provider_top_up_intent now transaction_id provider amount fee currency account at)
          (record_payment_created now metadata at)

  -- `NewProviderWithdrawalAggregate`
  unfoldable pub new_provider_withdrawal_aggregate :
      (transaction_id provider : String) (amount fee : ℤ) (currency destination debit : String)
      (metadata : Map String) (at : Time)
      → Result AggregateError PaymentAggregate
  unfolding construct
  new_provider_withdrawal_aggregate transaction_id provider amount fee currency destination debit
        metadata at =
      if is_zero at
      then err occurred_at_required
      else construct
          (new_provider_withdrawal_intent now transaction_id provider amount fee currency
            destination debit at)
          (record_payment_created now metadata at >> record_withdrawal_requested now at)

  -- `RestorePaymentIntentAggregateWithVersion`; a negative version is read as 0.
  unfoldable pub restore_payment_intent_aggregate : PaymentIntent → ℤ → PaymentAggregate
  restore_payment_intent_aggregate p version =
      let q = normalize_snapshot now p in
      let root = record zero_root { aggregate_type = "PaymentIntentAggregate" } in
      record {
        root = set_internal root q.transaction_id (pos_part version) (pos_part version);
        state = record { intent = q; processed_events = [] };
      }

-- `MarkPersisted`
unfoldable pub mark_payment_persisted : PaymentAggregate → PaymentAggregate
mark_payment_persisted a = record {
  root = mark_persisted a.root;
  state = record (a.state) { processed_events = [] };
}
