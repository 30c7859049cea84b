-- ===== src/Payment/Intent.antt =====
-- core/modules/payment/domain/entity: the payment intent (payment_intent.go) and its behaviour
-- (payment_intent_behavior.go). A method that writes to the intent returns the new one with its
-- results. The clock `now` is an argument where the code may read it. The receiver is not nil.
pub mod Normal
pub mod Settled
pub mod Delivery
pub mod Lifetime
pub mod Created
pub mod Report
use wechat_clone.Base.{
  String, Bool, true, false, not, ◌&&◌, ◌||◌, Option, none, some, List, [], ◌∷◌, ◌==◌,
  if◌then◌else◌,
}
use wechat_clone.Base.Int.{ℤ, pos, leb_ℤ, ltb_ℤ, eqb_ℤ, add64}
use wechat_clone.Base.Text.{trim_space, concat}
use wechat_clone.Base.Text.Case.{upper_trimmed, lower_trimmed, equal_fold}
use wechat_clone.Base.Time.{Time, time_or_now}
use wechat_clone.Base.Results.{Result, ok, err, ◌>>=◌, ◌>>◌, fail_if}
use wechat_clone.Payment.Status.{
  creating, success, failed, cancelled, refunded, chargeback, normalize_payment_status,
  normalize_payment_status_or_pending, PaymentTransition, resolve_payment_transition,
}

pub data PaymentError : Type 0 where
  provider_required transaction_id_required workflow_invalid amount_invalid : PaymentError
  fee_amount_invalid provider_amount_invalid currency_required : PaymentError
  clearing_account_key_missing destination_account_required : PaymentError
  debit_account_required credit_account_required accounts_conflict status_invalid : PaymentError
  provider_amount_mismatch provider_currency_mismatch : PaymentError
  processed_provider_required processed_key_required processed_transaction_required : PaymentError

pub record PaymentIntent : Type 0 where
  pub workflow : String
  pub transaction_id : String
  pub provider : String
  pub external_ref : String
  pub destination_account_id : String
  pub amount : ℤ
  pub fee_amount : ℤ
  pub provider_amount : ℤ
  pub currency : String
  pub clearing_account_key : String
  pub debit_account_id : String
  pub credit_account_id : String
  pub status : String
  pub created_at : Time
  pub updated_at : Time

pub record PaymentProviderResult : Type 0 where
  pub transaction_id : String
  pub event_id : String
  pub event_type : String
  pub status : String
  pub amount : ℤ
  pub currency : String
  pub external_ref : String

pub record ProcessedPaymentEvent : Type 0 where
  pub provider : String
  pub idempotency_key : String
  pub transaction_id : String
  pub created_at : Time

abbrev pub top_up : String
top_up = "TOP_UP"

abbrev pub withdrawal : String
withdrawal = "WITHDRAWAL"

-- `NormalizePaymentWorkflow`
unfoldable pub normalize_payment_workflow : String → String
normalize_payment_workflow workflow =
    let w = upper_trimmed workflow in
    if w == top_up then top_up else if w == withdrawal then withdrawal else ""

-- `providerClearingAccountKey`
unfoldable pub provider_clearing_account_key : String → String
provider_clearing_account_key provider =
    if lower_trimmed provider == "" then "" else concat ("provider:" ∷ lower_trimmed provider ∷ [])

-- `effectivePaymentClearingAccountKey`
unfoldable pub effective_clearing_account_key : String → String → String
effective_clearing_account_key provider key =
    if not (trim_space key == "") then trim_space key else provider_clearing_account_key provider

-- The intent of `newPaymentIntent` before its tests: the arguments, normalised.
unfoldable pub draft_intent : Time → PaymentIntent → PaymentIntent
draft_intent now input = record input {
  workflow = normalize_payment_workflow input.workflow;
  transaction_id = trim_space input.transaction_id;
  provider = lower_trimmed input.provider;
  external_ref = "";
  destination_account_id = trim_space input.destination_account_id;
  currency = upper_trimmed input.currency;
  clearing_account_key =
      effective_clearing_account_key (lower_trimmed input.provider) input.clearing_account_key;
  debit_account_id = trim_space input.debit_account_id;
  credit_account_id = trim_space input.credit_account_id;
  status = creating;
  created_at = time_or_now now input.created_at;
  updated_at = time_or_now now input.created_at;
}

-- The tests of `newPaymentIntent`, in their order.
unfoldable pub validate_intent : PaymentIntent → Result PaymentError (Unit {0})
validate_intent p = do
  fail_if (p.workflow == "") workflow_invalid
  fail_if (p.provider == "") provider_required
  fail_if (p.transaction_id == "") transaction_id_required
  fail_if (leb_ℤ p.amount (pos 0)) amount_invalid
  fail_if (ltb_ℤ p.fee_amount (pos 0)) fee_amount_invalid
  fail_if (leb_ℤ p.provider_amount (pos 0)) provider_amount_invalid
  fail_if (p.currency == "") currency_required
  fail_if (p.clearing_account_key == "") clearing_account_key_missing
  fail_if (p.workflow == top_up && p.credit_account_id == "") credit_account_required
  fail_if (p.workflow == withdrawal && p.debit_account_id == "") debit_account_required
  fail_if (p.workflow == withdrawal && p.destination_account_id == "") destination_account_required
  fail_if
      (not (p.debit_account_id == "")
        && not (p.credit_account_id == "")
        && p.debit_account_id == p.credit_account_id)
      accounts_conflict

-- `newPaymentIntent`: its arguments are the fields of `input`, `now` the one in `created_at`; the
-- other fields are not read.
unfoldable pub new_payment_intent : Time → PaymentIntent → Result PaymentError PaymentIntent
new_payment_intent now input =
    validate_intent (draft_intent now input) >> ok (draft_intent now input)

-- The arguments that the two public constructors pass on.
abbrev pub top_up_input :
    (transaction_id provider : String)
    → (amount fee : ℤ) → (currency account : String) → Time
    → PaymentIntent
top_up_input transaction_id provider amount fee currency account at = record {
  workflow = top_up;
  transaction_id = transaction_id;
  provider = provider;
  external_ref = "";
  destination_account_id = "";
  amount = amount;
  fee_amount = fee;
  provider_amount = add64 amount fee;
  currency = currency;
  clearing_account_key = provider_clearing_account_key provider;
  debit_account_id = "";
  credit_account_id = account;
  status = "";
  created_at = at;
  updated_at = at;
}

abbrev pub withdrawal_input :
    (transaction_id provider : String)
    → (amount fee : ℤ) → (currency destination debit : String) → Time
    → PaymentIntent
withdrawal_input transaction_id provider amount fee currency destination debit at = record {
  workflow = withdrawal;
  transaction_id = transaction_id;
  provider = provider;
  external_ref = "";
  destination_account_id = destination;
  amount = amount;
  fee_amount = fee;
  provider_amount = amount;
  currency = currency;
  clearing_account_key = provider_clearing_account_key provider;
  debit_account_id = debit;
  credit_account_id = "";
  status = "";
  created_at = at;
  updated_at = at;
}

module _ (now : Time) where
  -- `NewProviderTopUpIntent`
  unfoldable pub new_provider_top_up_intent :
      (transaction_id provider : String)
      → (amount fee : ℤ) → (currency account : String) → Time
      → Result PaymentError PaymentIntent
  unfolding new_payment_intent
  new_provider_top_up_intent transaction_id provider amount fee currency account at =
      new_payment_intent now (top_up_input transaction_id provider amount fee currency account at)

  -- `NewProviderWithdrawalIntent`
  unfoldable pub new_provider_withdrawal_intent :
      (transaction_id provider : String)
      → (amount fee : ℤ) → (currency destination debit : String) → Time
      → Result PaymentError PaymentIntent
  unfolding new_payment_intent
  new_provider_withdrawal_intent transaction_id provider amount fee currency destination debit at =
      new_payment_intent now
        (withdrawal_input transaction_id provider amount fee currency destination debit at)

abbrev pub or_default : String → String → String
or_default s d = if s == "" then d else s

-- `ensureWorkflowDefaults`
unfoldable pub ensure_workflow_defaults : PaymentIntent → PaymentIntent
ensure_workflow_defaults p =
    let workflow = or_default (normalize_payment_workflow p.workflow) top_up in
    record p {
      transaction_id = trim_space p.transaction_id;
      workflow = workflow;
      provider = lower_trimmed p.provider;
      external_ref = trim_space p.external_ref;
      destination_account_id = trim_space p.destination_account_id;
      currency = upper_trimmed p.currency;
      clearing_account_key =
          effective_clearing_account_key (lower_trimmed p.provider) p.clearing_account_key;
      debit_account_id = trim_space p.debit_account_id;
      credit_account_id = trim_space p.credit_account_id;
      provider_amount =
          if leb_ℤ p.provider_amount (pos 0)
          then (if workflow == withdrawal then p.amount else add64 p.amount p.fee_amount)
          else p.provider_amount;
      status = or_default (normalize_payment_status p.status) creating;
    }

-- The writes of `transitionProviderState` to the external reference and to the update time.
unfoldable pub set_external_ref :
    PaymentIntent → String → PaymentTransition → PaymentIntent × PaymentTransition
set_external_ref p ref t =
    if not (trim_space ref == "") && not (trim_space ref == p.external_ref)
    then (record p { external_ref = trim_space ref }, record t { external_ref_changed = true })
    else (p, t)

-- What `transitionProviderState` writes for the transition that was resolved.
unfoldable pub settle :
    Time → PaymentIntent → String → PaymentTransition → Time → PaymentIntent × PaymentTransition
unfolding set_external_ref
settle now p ref t updated_at =
    let q = if t.state_changed then record p { status = t.current_status } else p in
    let (r, u) = set_external_ref q ref t in
    (
      if u.state_changed || u.external_ref_changed
          then record r { updated_at = time_or_now now updated_at }
          else r,
      u,
    )

-- `transitionProviderState`, after the defaults, for a status that is one.
unfoldable pub move_to :
    Time → PaymentIntent → String → String → Time → PaymentIntent × PaymentTransition
move_to now p ref next updated_at =
    settle now p ref
      (resolve_payment_transition (normalize_payment_status_or_pending p.status) next) updated_at

-- `transitionProviderState`
unfoldable pub transition_provider_state :
    Time
    → PaymentIntent
    → String
    → String
    → Time
    → PaymentIntent × Result PaymentError PaymentTransition
transition_provider_state now p ref status updated_at =
    let q = ensure_workflow_defaults p in
    let next = normalize_payment_status status in
    if next == ""
    then (q, err status_invalid)
    else (let (r, t) = move_to now q ref next updated_at in (r, ok t))

-- `ValidateProviderResultForStatus`
unfoldable pub validate_provider_result_for_status :
    PaymentIntent → String → ℤ → String → Result PaymentError (Unit {0})
validate_provider_result_for_status p status amount currency = do
  let s = normalize_payment_status_or_pending status
  fail_if
      (not (eqb_ℤ amount (pos 0))
        && (if s == refunded || s == chargeback
            then ltb_ℤ p.provider_amount amount
            else not (eqb_ℤ amount p.provider_amount)))
      provider_amount_mismatch
  fail_if (not (trim_space currency == "") && not (equal_fold (trim_space currency) p.currency))
      provider_currency_mismatch

-- `TransitionProviderResult`
unfoldable pub transition_provider_result :
    Time
    → PaymentIntent
    → PaymentProviderResult
    → Time
    → PaymentIntent × Result PaymentError PaymentTransition
unfolding transition_provider_state
transition_provider_result now p result updated_at =
    let q = ensure_workflow_defaults p in
    let next = normalize_payment_status_or_pending result.status in
    elim (validate_provider_result_for_status q next result.amount result.currency) [
      | err e ↦ (q, err e)
      | ok _ ↦ transition_provider_state now q result.external_ref next updated_at
    ]

-- `MarkCreateFailed`
unfoldable pub mark_create_failed :
    Time → PaymentIntent → Time → PaymentIntent × Result PaymentError PaymentTransition
unfolding transition_provider_state
mark_create_failed now p updated_at = transition_provider_state now p "" failed updated_at

-- `IsTerminal`
unfoldable pub is_terminal : PaymentIntent → Bool
is_terminal p =
    p.status == success
    || p.status == failed
    || p.status == cancelled
    || p.status == refunded
    || p.status == chargeback
