-- ===== src/Payment/Tests.antt =====
-- Tests of core/modules/payment/domain on a top-up, and the theorems at concrete inputs.
use wechat_clone.Base.{◌≡◌, refl, ◌≤◌, true, false}
use wechat_clone.Base.Int.{pos, add64, ◌+ℤ◌, wrap64}
use wechat_clone.Base.Text.{trim_space, to_upper, to_lower, concat}
use wechat_clone.Base.Text.Case.{upper_trimmed, lower_trimmed}
use wechat_clone.Base.Results.{ok, err}
use wechat_clone.Payment.Status.{
  normalize_payment_status, normalize_payment_status_or_pending, resolve_payment_transition,
  to_succeeded,
}
use wechat_clone.Payment.Status.Moves.{Resolves, resolve_payment_transition-Resolves}
use wechat_clone.Payment.Intent.{
  PaymentIntent, PaymentProviderResult, top_up_input, normalize_payment_workflow,
  effective_clearing_account_key, provider_clearing_account_key, draft_intent, new_payment_intent,
  validate_intent, ensure_workflow_defaults, settle, move_to, transition_provider_state,
  transition_provider_result, validate_provider_result_for_status, provider_amount_mismatch,
}
use wechat_clone.Payment.Intent.Delivery.{transition_provider_state_again}
use wechat_clone.Payment.Intent.Lifetime.{
  Follows, transition_provider_state-Follows, Delivered, start, after, status_changes_bounded,
}
use wechat_clone.Payment.Intent.Created.{IsIntent, Changes, new_payment_intent_kept}
use wechat_clone.Payment.Intent.Report.{Reports, transition_provider_result-Reports}

abbrev input : PaymentIntent
input = top_up_input " t1" "Stripe" (pos 100) (pos 5) "usd" "alice" 9

-- The top-up as it is made, and as it stands after the provider has reported it as paid.
abbrev made : PaymentIntent
made = record {
  workflow = "TOP_UP";
  transaction_id = "t1";
  provider = "stripe";
  external_ref = "";
  destination_account_id = "";
  amount = pos 100;
  fee_amount = pos 5;
  provider_amount = pos 105;
  currency = "USD";
  clearing_account_key = "provider:stripe";
  debit_account_id = "";
  credit_account_id = "alice";
  status = "CREATING";
  created_at = 9;
  updated_at = 9;
}

abbrev paid : PaymentIntent
paid = record made { status = "SUCCESS"; external_ref = "cs_1"; updated_at = 11 }

abbrev report : PaymentProviderResult
report = record {
  transaction_id = "t1";
  event_id = "evt_1";
  event_type = "checkout.session.completed";
  status = "success";
  amount = pos 105;
  currency = "Usd";
  external_ref = " cs_1";
}

top_up_made : new_payment_intent 1 input ≡ ok made
unfolding new_payment_intent draft_intent validate_intent normalize_payment_workflow upper_trimmed
    lower_trimmed trim_space to_upper to_lower effective_clearing_account_key
    provider_clearing_account_key concat add64 ◌+ℤ◌ wrap64
top_up_made = refl

report_taken : transition_provider_state 1 made " cs_1" "success" 11 ≡ (
  paid,
  ok (record {
    previous_status = "CREATING";
    current_status = "SUCCESS";
    transition_type = to_succeeded;
    state_changed = true;
    external_ref_changed = true;
    ignored = false;
  }),
)
unfolding transition_provider_state ensure_workflow_defaults move_to settle
    resolve_payment_transition normalize_payment_status_or_pending normalize_payment_status
    normalize_payment_workflow upper_trimmed lower_trimmed trim_space to_upper to_lower
    effective_clearing_account_key
report_taken = refl

wrong_amount_refused :
    (transition_provider_result 1 made (record report { amount = pos 100 }) 11).1
    ≡ err provider_amount_mismatch
unfolding transition_provider_result ensure_workflow_defaults validate_provider_result_for_status
    normalize_payment_status_or_pending normalize_payment_status normalize_payment_workflow
    upper_trimmed lower_trimmed trim_space to_upper to_lower effective_clearing_account_key
wrong_amount_refused = refl

paid-Delivered : Delivered made 1 paid
paid-Delivered = after 1 11 " cs_1" "success" _ start report_taken

resolve_payment_transition-Resolves_example :
    Resolves
      (normalize_payment_status_or_pending "pending")
      "SUCCESS"
      (resolve_payment_transition "pending" "SUCCESS")
resolve_payment_transition-Resolves_example =
    resolve_payment_transition-Resolves "pending" "SUCCESS"

transition_provider_state_again_example :
    (t : _) × (transition_provider_state 2 paid " cs_1" "success" 12 ≡ (paid, ok t))
    × (t.state_changed ≡ false)
    × (t.external_ref_changed ≡ false)
transition_provider_state_again_example =
    transition_provider_state_again 1 2 11 12 made paid " cs_1" "success" _ report_taken

transition_provider_state-Follows_example :
    Follows (ensure_workflow_defaults made).status "SUCCESS" (record {
      previous_status = "CREATING";
      current_status = "SUCCESS";
      transition_type = to_succeeded;
      state_changed = true;
      external_ref_changed = true;
      ignored = false;
    })
transition_provider_state-Follows_example =
    transition_provider_state-Follows 1 11 made paid " cs_1" "success" _ report_taken

status_changes_bounded_example : 1 ≤ 3
status_changes_bounded_example = status_changes_bounded paid-Delivered

new_payment_intent_kept_example : IsIntent paid × Changes made paid
new_payment_intent_kept_example = new_payment_intent_kept 1 input made top_up_made paid-Delivered

transition_provider_result-Reports_example :
    Reports made report (transition_provider_result 1 made report 11)
transition_provider_result-Reports_example = transition_provider_result-Reports 1 11 made report
