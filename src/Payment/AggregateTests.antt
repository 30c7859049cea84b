-- ===== src/Payment/AggregateTests.antt =====
-- Tests of core/modules/payment/domain/aggregate/payment_intent_aggregate.go on a top-up, and the
-- theorems at concrete inputs.
use wechat_clone.Base.{◌≡◌, refl, inr, ◌+◌, ◌≤◌, [], ◌++◌, true, false, ◌==◌}
use wechat_clone.Base.Text.{trim_space, to_upper, to_lower}
use wechat_clone.Base.Text.Case.{upper_trimmed, lower_trimmed, equal_fold}
use wechat_clone.Base.Results.{ok}
use wechat_clone.Payment.Status.{normalize_payment_status, normalize_payment_status_or_pending}
use wechat_clone.Payment.Aggregate.Steady.{standing}
use wechat_clone.Payment.Aggregate.Exactly.{IsOpen, success_is_credited}
use wechat_clone.Base.Int.{pos}
use wechat_clone.Payment.Intent.{PaymentIntent, PaymentProviderResult, transition_provider_result}
use wechat_clone.Payment.Aggregate.{PaymentAggregate}
use wechat_clone.Payment.Aggregate.Records.{
  transition_intent, normalize_snapshot, validate_for_status,
}
use wechat_clone.Payment.Aggregate.Commands.{
  apply_provider_outcome, mark_payment_persisted, is_persisted,
}
use wechat_clone.Payment.Aggregate.Entity.{stamped, transition_intent-eq-transition_provider_result}
use wechat_clone.Payment.Aggregate.Sound.{credits, reversals}
use wechat_clone.Payment.Aggregate.Once.{
  Handled, start, reported, persisted, is_settled, is_final, credited_once, outcome_refines,
}

-- A top-up that waits for its provider.
abbrev waiting : PaymentIntent
waiting = record {
  workflow = "TOP_UP";
  transaction_id = "t1";
  provider = "stripe";
  external_ref = "";
  destination_account_id = "";
  amount = pos 100;
  fee_amount = pos 5;
  provider_amount = pos 105;
  currency = "USD";
  clearing_account_key = "provider:stripe";
  debit_account_id = "";
  credit_account_id = "alice";
  status = "PENDING";
  created_at = 9;
  updated_at = 9;
}

abbrev pending_top_up : PaymentAggregate
pending_top_up = record {
  root = record {
    aggregate_id = "t1";
    aggregate_type = "PaymentIntentAggregate";
    version = 1;
    base_version = 1;
    events = [];
  };
  state = record { intent = waiting; processed_events = [] };
}

abbrev paid_report : PaymentProviderResult
paid_report = record {
  transaction_id = "t1";
  event_id = "evt_1";
  event_type = "checkout.session.completed";
  status = "success";
  amount = pos 105;
  currency = "Usd";
  external_ref = " cs_1";
}

abbrev paid_top_up : PaymentAggregate
paid_top_up = (apply_provider_outcome 20 paid_report "" true 11 pending_top_up).0

-- The report of the payment comes twice, and the aggregate is persisted in between.
abbrev persisted_top_up : PaymentAggregate
persisted_top_up = mark_payment_persisted paid_top_up

abbrev life :
    Handled pending_top_up
      ([] ++ paid_top_up.root.events)
      (apply_provider_outcome 21 paid_report "" true 12 persisted_top_up).0
life = reported 21 12 paid_report "" true (persisted (reported 20 11 paid_report "" true start))

credited_once_example :
    (is_settled pending_top_up
        + credits (
            ([] ++ paid_top_up.root.events)
            ++ (apply_provider_outcome 21 paid_report "" true 12 persisted_top_up).0.root.events)
      ≤ 1)
    × (is_final pending_top_up
          + reversals (
              ([] ++ paid_top_up.root.events)
              ++ (apply_provider_outcome 21 paid_report "" true 12 persisted_top_up).0.root.events)
        ≤ 1)
credited_once_example = credited_once refl refl life

outcome_refines_example :
    (apply_provider_outcome 20 paid_report "" true 11 pending_top_up).0.state.intent
    ≡ (transition_provider_result 20 (stamped 20 waiting) paid_report 11).0
outcome_refines_example =
    outcome_refines {a = pending_top_up} refl refl start 20 11 paid_report "" true refl

transition_intent-eq-transition_provider_result_example :
    transition_intent 20 waiting paid_report 11
    ≡ transition_provider_result 20 (stamped 20 waiting) paid_report 11
transition_intent-eq-transition_provider_result_example =
    transition_intent-eq-transition_provider_result 20 11 waiting paid_report

report_fits :
    validate_for_status
      (normalize_snapshot 20 waiting)
      "SUCCESS"
      paid_report.amount
      paid_report.currency
    ≡ ok tt
unfolding validate_for_status normalize_snapshot normalize_payment_status_or_pending
    normalize_payment_status upper_trimmed lower_trimmed equal_fold trim_space to_upper to_lower
report_fits = refl

status_read : normalize_payment_status paid_report.status ≡ "SUCCESS"
unfolding normalize_payment_status upper_trimmed trim_space to_upper
status_read = refl

is_waiting : IsOpen (standing waiting)
unfolding normalize_payment_status upper_trimmed trim_space to_upper
is_waiting = inr refl

has_provider : (lower_trimmed waiting.provider == "") ≡ false
unfolding lower_trimmed trim_space to_lower
has_provider = refl

has_id : (trim_space waiting.transaction_id == "") ≡ false
unfolding trim_space
has_id = refl

success_is_credited_example :
    let r = apply_provider_outcome 20 paid_report "" true 11 pending_top_up in
    (r.1 ≡ ok is_persisted) × (credits r.0.root.events ≡ credits pending_top_up.root.events + 1)
success_is_credited_example =
    success_is_credited 20 11 pending_top_up paid_report "" true refl is_waiting has_provider has_id
      refl status_read report_fits
