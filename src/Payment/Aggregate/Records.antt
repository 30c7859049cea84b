-- ===== src/Payment/Aggregate/Records.antt =====
-- core/modules/payment/domain/aggregate/payment_intent_aggregate.go: the record methods and the
-- transitions of the aggregate's intent.
use wechat_clone.Base.{String, Bool, false, not, ◌&&◌, ◌||◌, ◌==◌, if◌then◌else◌}
use wechat_clone.Base.Int.{ℤ, pos, leb_ℤ, ltb_ℤ, eqb_ℤ, add64}
use wechat_clone.Base.Text.{trim_space}
use wechat_clone.Base.Text.Case.{upper_trimmed, lower_trimmed, equal_fold}
use wechat_clone.Base.Time.{Time, time_or_now}
use wechat_clone.Base.Maps.{Map}
use wechat_clone.Base.Results.{Result, ok, err}
use wechat_clone.Payment.Status.{
  creating, refunded, chargeback, normalize_payment_status, normalize_payment_status_or_pending,
  PaymentTransition,
}
use wechat_clone.Payment.Intent.{
  PaymentError, PaymentIntent, PaymentProviderResult, top_up, withdrawal,
  normalize_payment_workflow, or_default, status_invalid, provider_amount_mismatch,
  provider_currency_mismatch,
}
use wechat_clone.Payment.Aggregate.Machine.{move_intent}
use wechat_clone.Payment.Events.{
  payment_created, withdrawal_requested, checkout_session_created, provider_state_changed,
  payment_succeeded, payment_failed, payment_refunded, payment_chargeback, succeeded_name,
  refunded_name, chargeback_name,
}
use wechat_clone.Payment.Aggregate.{
  PaymentAggregate, AggregateError, effective_clearing_key, intent_error, Step, apply_change_at,
  current_provider_result, transition_idempotency_key, amount_or_default, created_of, withdrawal_of,
  checkout_of, state_changed_of, outcome_of,
}

-- `normalizePaymentIntentSnapshot`
unfoldable pub normalize_snapshot : Time → PaymentIntent → PaymentIntent
normalize_snapshot now p =
    let workflow = or_default (normalize_payment_workflow p.workflow) top_up in
    record p {
      transaction_id = trim_space p.transaction_id;
      workflow = workflow;
      provider = lower_trimmed p.provider;
      external_ref = trim_space p.external_ref;
      destination_account_id = trim_space p.destination_account_id;
      currency = upper_trimmed p.currency;
      clearing_account_key =
          effective_clearing_key (lower_trimmed p.provider) p.clearing_account_key;
      debit_account_id = trim_space p.debit_account_id;
      credit_account_id = trim_space p.credit_account_id;
      provider_amount =
          if leb_ℤ p.provider_amount (pos 0)
          then (if workflow == withdrawal then p.amount else add64 p.amount p.fee_amount)
          else p.provider_amount;
      status = or_default (normalize_payment_status p.status) creating;
      created_at = time_or_now now p.created_at;
      updated_at = time_or_now now p.updated_at;
    }

-- `validateProviderResultForStatus`
unfoldable pub validate_for_status :
    PaymentIntent → String → ℤ → String → Result PaymentError (Unit {0})
validate_for_status p status amount currency =
    let s =
      if normalize_payment_status status == ""
      then normalize_payment_status_or_pending status
      else normalize_payment_status status in
    if not (eqb_ℤ amount (pos 0))
      && (if s == refunded || s == chargeback
          then ltb_ℤ p.provider_amount amount
          else not (eqb_ℤ amount p.provider_amount))
    then err provider_amount_mismatch
    else if not (trim_space currency == "") && not (equal_fold (trim_space currency) p.currency)
    then err provider_currency_mismatch
    else ok tt

-- The aggregate with another intent, and what a transition of the intent returned.
abbrev pub with_intent :
    PaymentAggregate
    → PaymentIntent × Result PaymentError PaymentTransition
    → PaymentAggregate × Result AggregateError PaymentTransition
with_intent a r = (
  record a { state = record (a.state) { intent = r.0 } },
  elim r.1 [ err e ↦ err (intent_error e) | ok t ↦ ok t ],
)

-- `transitionProviderState`, on the intent
unfoldable pub transition_intent_state :
    Time
    → PaymentIntent
    → String
    → String
    → Time
    → PaymentIntent × Result PaymentError PaymentTransition
transition_intent_state now p ref status at =
    let q = normalize_snapshot now p in
    let next = normalize_payment_status status in
    if next == ""
    then (q, err status_invalid)
    else (let (r, t) = move_intent now q ref next at in (r, ok t))

-- `transitionProviderResult`, on the intent
unfoldable pub transition_intent :
    Time
    → PaymentIntent
    → PaymentProviderResult
    → Time
    → PaymentIntent × Result PaymentError PaymentTransition
unfolding transition_intent_state
transition_intent now p result at =
    let q = normalize_snapshot now p in
    let next = normalize_payment_status_or_pending result.status in
    elim (validate_for_status q next result.amount result.currency) [
      | err e ↦ (q, err e)
      | ok _ ↦ transition_intent_state now q result.external_ref next at
    ]

module _ (now : Time) where
  -- The two methods on the aggregate.
  unfoldable pub transition_state : String → String → Time → Step PaymentTransition
  transition_state ref status at a =
      with_intent a (transition_intent_state now a.state.intent ref status at)

  unfoldable pub transition_result : PaymentProviderResult → Time → Step PaymentTransition
  transition_result result at a = with_intent a (transition_intent now a.state.intent result at)

  -- `recordPaymentCreated`
  unfoldable pub record_payment_created : Map String → Time → Step (Unit {0})
  record_payment_created metadata at a =
      apply_change_at now (payment_created (created_of a.state.intent metadata at)) a

  -- `recordWithdrawalRequested`
  unfoldable pub record_withdrawal_requested : Time → Step (Unit {0})
  record_withdrawal_requested at a =
      apply_change_at now (withdrawal_requested (withdrawal_of a.state.intent at)) a

  -- `recordProviderStateChanged`
  unfoldable pub record_provider_state_changed :
      PaymentTransition → PaymentProviderResult → Time → Step (Unit {0})
  record_provider_state_changed t result at a =
      let p = a.state.intent in
      apply_change_at now
        (provider_state_changed (state_changed_of p t (current_provider_result p result) at)) a

  -- `shouldEmitCheckoutSessionCreated`
  unfoldable pub should_emit_checkout_session_created : PaymentIntent → String → Bool
  should_emit_checkout_session_created p url =
      if not (p.workflow == top_up)
      then false
      else not (trim_space url == "") || not (trim_space p.external_ref == "")

  -- `recordCheckoutSessionEvent`
  unfoldable pub record_checkout_session_event : String → Bool → Time → Step (Unit {0})
  record_checkout_session_event url emit at a =
      let p = a.state.intent in
      if not emit || not (should_emit_checkout_session_created p url)
      then (a, ok tt)
      else apply_change_at now (checkout_session_created (checkout_of p url at)) a

  -- `recordPaymentSucceeded`, of the current result
  unfoldable pub record_payment_succeeded : PaymentProviderResult → Time → Step (Unit {0})
  record_payment_succeeded result at a =
      let p = a.state.intent in
      let key = transition_idempotency_key p succeeded_name in
      apply_change_at now (payment_succeeded (outcome_of p result p.amount at) key) a

  -- `recordPaymentFailed`
  unfoldable pub record_payment_failed : PaymentProviderResult → Time → Step (Unit {0})
  record_payment_failed result at a =
      let p = a.state.intent in
      let status = normalize_payment_status_or_pending result.status in
      apply_change_at now (payment_failed (outcome_of p result p.amount at) status) a

  -- `recordPaymentRefunded`
  unfoldable pub record_payment_refunded : PaymentProviderResult → Time → Step (Unit {0})
  record_payment_refunded result at a =
      let p = a.state.intent in
      let key = transition_idempotency_key p refunded_name in
      let amount = amount_or_default result.amount p.amount in
      apply_change_at now (payment_refunded (outcome_of p result amount at) key) a

  -- `recordPaymentChargeback`
  unfoldable pub record_payment_chargeback : PaymentProviderResult → Time → Step (Unit {0})
  record_payment_chargeback result at a =
      let p = a.state.intent in
      let key = transition_idempotency_key p chargeback_name in
      let amount = amount_or_default result.amount p.amount in
      apply_change_at now (payment_chargeback (outcome_of p result amount at) key) a
