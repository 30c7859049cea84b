-- ===== src/Payment/Aggregate.antt =====
-- core/modules/payment/domain/aggregate/payment_intent_aggregate.go: the aggregate of a payment
-- intent: its state, what each event does to it, and the records that its commands make of it. The
-- intent is not nil, as the constructors leave it. The clock `now` is an argument. The time stamp
-- that applyChangeAt writes into an event's envelope is not modelled.
pub mod Machine
pub mod Records
pub mod Commands
pub mod Entity
pub mod Left
pub mod Sound
pub mod Steps
pub mod Ready
pub mod Outcomes
pub mod Refines
pub mod Steady
pub mod Taken
pub mod Once
pub mod Credited
pub mod Exactly
use wechat_clone.Base.{
  String, Bool, true, not, ◌&&◌, ◌||◌, Option, none, some, List, [], ◌∷◌, ◌++◌, ◌==◌, if◌then◌else◌,
}
use wechat_clone.Base.Int.{ℤ, pos, eqb_ℤ}
use wechat_clone.Base.Text.{trim_space, concat}
use wechat_clone.Base.Text.Case.{upper_trimmed, lower_trimmed}
use wechat_clone.Base.Time.{Time, time_or_now}
use wechat_clone.Base.Maps.{Map}
use wechat_clone.Base.Results.{Result, ok, err}
use wechat_clone.Event.{Event, RootError, Aggregate, apply_change}
use wechat_clone.Payment.Status.{
  success, failed, refunded, chargeback, normalize_payment_status,
  normalize_payment_status_or_pending, PaymentTransition,
}
use wechat_clone.Payment.Intent.{
  PaymentError, PaymentIntent, PaymentProviderResult, ProcessedPaymentEvent, top_up,
  normalize_payment_workflow, or_default, processed_provider_required, processed_key_required,
  processed_transaction_required,
}
use wechat_clone.Payment.Events.{
  PaymentCreated, WithdrawalRequested, CheckoutSessionCreated, ProviderStateChanged, PaymentOutcome,
  PaymentEvent, payment_created, withdrawal_requested, checkout_session_created,
  provider_state_changed, payment_succeeded, payment_failed, payment_refunded, payment_chargeback,
  payment_event_name, succeeded_name, refunded_name, chargeback_name,
}

pub data AggregateError : Type 0 where
  occurred_at_required : AggregateError
  intent_error : PaymentError → AggregateError
  root_error : RootError → AggregateError

-- What `PaymentIntentAggregate` has beside its root.
pub record PaymentState : Type 0 where
  pub intent : PaymentIntent
  pub processed_events : List ProcessedPaymentEvent

abbrev pub PaymentAggregate : Type 0
PaymentAggregate = Aggregate PaymentEvent PaymentState

-- `if ref := strings.TrimSpace(ref); ref != "" { a.intent.ExternalRef = ref }`
abbrev pub with_ref : PaymentIntent → String → PaymentIntent
with_ref p ref = record p { external_ref = or_default (trim_space ref) p.external_ref }

-- The aggregate's own `providerClearingAccountKey` and `effectivePaymentClearingAccountKey`
unfoldable pub provider_clearing_key : String → String
provider_clearing_key provider =
    let p = lower_trimmed provider in if p == "" then "" else concat ("provider:" ∷ p ∷ [])

unfoldable pub effective_clearing_key : String → String → String
effective_clearing_key provider key =
    let k = trim_space key in if not (k == "") then k else provider_clearing_key provider

module _ (now : Time) where
  -- `applyPaymentCreated`
  unfoldable pub apply_payment_created : PaymentIntent → PaymentCreated → PaymentIntent
  apply_payment_created p d = record p {
    workflow = or_default (normalize_payment_workflow d.workflow) top_up;
    transaction_id = or_default (trim_space d.transaction_id) (trim_space d.payment_id);
    provider = lower_trimmed d.provider;
    clearing_account_key = effective_clearing_key (lower_trimmed d.provider) d.clearing_account_key;
    amount = d.amount;
    fee_amount = d.fee_amount;
    provider_amount = d.provider_amount;
    currency = upper_trimmed d.currency;
    debit_account_id = trim_space d.debit_account_id;
    credit_account_id = trim_space d.credit_account_id;
    status = normalize_payment_status_or_pending d.status;
    created_at = time_or_now now d.created_at;
    updated_at = time_or_now now d.created_at;
  }

  -- `applyWithdrawalRequested`
  unfoldable pub apply_withdrawal_requested : PaymentIntent → WithdrawalRequested → PaymentIntent
  apply_withdrawal_requested p d = record p {
    destination_account_id = trim_space d.destination_account_id;
    debit_account_id = trim_space d.debit_account_id;
    updated_at = time_or_now now d.requested_at;
  }

  -- `applyCheckoutSessionCreated`
  unfoldable pub apply_checkout_session_created :
      PaymentIntent → CheckoutSessionCreated → PaymentIntent
  apply_checkout_session_created p d = record (with_ref p d.provider_payment_ref) {
    updated_at = time_or_now now d.occurred_at;
  }

  -- `applyProviderStateChanged`
  unfoldable pub apply_provider_state_changed : PaymentIntent → ProviderStateChanged → PaymentIntent
  apply_provider_state_changed p d = record (with_ref p d.provider_payment_ref) {
    status = or_default (normalize_payment_status d.status) p.status;
    updated_at = time_or_now now d.occurred_at;
  }

  -- `applyPaymentSucceeded`, `applyPaymentFailed`, `applyPaymentRefunded` and
  -- `applyPaymentChargeback`, which differ in the status that they set.
  unfoldable pub apply_payment_outcome : String → PaymentIntent → PaymentOutcome → PaymentIntent
  apply_payment_outcome status p d = record (with_ref p d.provider_payment_ref) {
    status = status;
    updated_at = time_or_now now d.at;
  }

  abbrev pub apply_payment_event : PaymentIntent → PaymentEvent → PaymentIntent
  apply_payment_event p (payment_created d) = apply_payment_created p d
  apply_payment_event p (withdrawal_requested d) = apply_withdrawal_requested p d
  apply_payment_event p (checkout_session_created d) = apply_checkout_session_created p d
  apply_payment_event p (provider_state_changed d) = apply_provider_state_changed p d
  apply_payment_event p (payment_succeeded d _) = apply_payment_outcome success p d
  apply_payment_event p (payment_failed d _) = apply_payment_outcome failed p d
  apply_payment_event p (payment_refunded d _) = apply_payment_outcome refunded p d
  apply_payment_event p (payment_chargeback d _) = apply_payment_outcome chargeback p d

  -- `Transition`
  unfoldable pub payment_transition :
      PaymentState → Event PaymentEvent → PaymentState × Option AggregateError
  unfolding apply_payment_created apply_withdrawal_requested apply_checkout_session_created
      apply_provider_state_changed apply_payment_outcome
  payment_transition s e = (record s { intent = apply_payment_event s.intent e.event_data }, none)

-- A method of the aggregate: it may write to the aggregate also where it fails.
abbrev pub Step : Type 0 → Type 0
Step A = PaymentAggregate → PaymentAggregate × Result AggregateError A

infixl 5 ◌>>=◌ ◌>>◌
abbrev pub ◌>>=◌ : {A B : Type 0} → Step A → (A → Step B) → Step B
◌>>=◌ m f a = elim (m a).1 [ err e ↦ ((m a).0, err e) | ok x ↦ f x (m a).0 ]

abbrev pub ◌>>◌ : {B : Type 0} → Step (Unit {0}) → Step B → Step B
m >> k = m >>= λ _. k

abbrev pub return : {A : Type 0} → A → Step A
return x a = (a, ok x)

abbrev pub throw : {A : Type 0} → AggregateError → Step A
throw e a = (a, err e)

abbrev pub the_intent : Step PaymentIntent
the_intent a = (a, ok a.state.intent)

abbrev pub done : Option AggregateError → Result AggregateError (Unit {0})
done none = ok tt
done (some e) = err e

-- `applyChangeAt`
unfoldable pub apply_change_at : Time → PaymentEvent → Step (Unit {0})
apply_change_at now d a =
    let r = apply_change (payment_transition now) root_error payment_event_name a (some d) in
    (r.0, done r.1)

-- `coalescePaymentValue`, of two values
unfoldable pub coalesce : String → String → String
coalesce s t = or_default (trim_space s) (trim_space t)

-- `paymentResultAmountOrDefault`
unfoldable pub amount_or_default : ℤ → ℤ → ℤ
amount_or_default amount fallback = if not (eqb_ℤ amount (pos 0)) then amount else fallback

-- `currentProviderResult`
unfoldable pub current_provider_result :
    PaymentIntent → PaymentProviderResult → PaymentProviderResult
current_provider_result p source = record {
  transaction_id = coalesce source.transaction_id p.transaction_id;
  event_id = trim_space source.event_id;
  event_type = trim_space source.event_type;
  status = normalize_payment_status_or_pending (coalesce source.status p.status);
  amount = if eqb_ℤ source.amount (pos 0) then p.provider_amount else source.amount;
  currency = coalesce source.currency p.currency;
  external_ref = coalesce source.external_ref p.external_ref;
}

-- `transitionIdempotencyKey`
unfoldable pub transition_idempotency_key : PaymentIntent → String → String
transition_idempotency_key p name =
    concat (trim_space name ∷ ":" ∷ trim_space p.transaction_id ∷ [])

-- `NewProcessedPaymentEvent`
unfoldable pub new_processed_payment_event :
    Time → String → String → String → Time → Result PaymentError ProcessedPaymentEvent
new_processed_payment_event now provider key transaction_id created_at =
    if trim_space provider == ""
    then err processed_provider_required
    else if trim_space key == ""
    then err processed_key_required
    else if trim_space transaction_id == ""
    then err processed_transaction_required
    else ok (record {
      provider = trim_space provider;
      idempotency_key = trim_space key;
      transaction_id = trim_space transaction_id;
      created_at = time_or_now now created_at;
    })

-- `newProcessedTransitionEvent`
unfoldable pub new_processed_transition_event : Time → String → Time → Step ProcessedPaymentEvent
new_processed_transition_event now name at a =
    let p = a.state.intent in
    elim (new_processed_payment_event now p.provider (transition_idempotency_key p name)
      p.transaction_id at) [ err e ↦ (a, err (intent_error e)) | ok x ↦ (a, ok x) ]

-- `recordProcessedEvent`
unfoldable pub record_processed_event : ProcessedPaymentEvent → Step (Unit {0})
record_processed_event x a = (
  record a { state = record (a.state) { processed_events = a.state.processed_events ++ (x ∷ []) } },
  ok tt,
)

-- The event literals of the record methods.
abbrev pub created_of : PaymentIntent → Map String → Time → PaymentCreated
created_of p metadata at = record {
  workflow = p.workflow;
  payment_id = p.transaction_id;
  transaction_id = p.transaction_id;
  provider = p.provider;
  clearing_account_key = p.clearing_account_key;
  debit_account_id = p.debit_account_id;
  amount = p.amount;
  fee_amount = p.fee_amount;
  provider_amount = p.provider_amount;
  currency = p.currency;
  credit_account_id = p.credit_account_id;
  status = p.status;
  metadata = metadata;
  created_at = at;
}

abbrev pub withdrawal_of : PaymentIntent → Time → WithdrawalRequested
withdrawal_of p at = record {
  payment_id = p.transaction_id;
  transaction_id = p.transaction_id;
  provider = p.provider;
  clearing_account_key = p.clearing_account_key;
  debit_account_id = p.debit_account_id;
  destination_account_id = p.destination_account_id;
  amount = p.amount;
  fee_amount = p.fee_amount;
  provider_amount = p.provider_amount;
  currency = p.currency;
  status = p.status;
  requested_at = at;
}

abbrev pub checkout_of : PaymentIntent → String → Time → CheckoutSessionCreated
checkout_of p url at = record {
  workflow = p.workflow;
  payment_id = p.transaction_id;
  transaction_id = p.transaction_id;
  provider = p.provider;
  provider_payment_ref = p.external_ref;
  checkout_url = trim_space url;
  amount = p.amount;
  fee_amount = p.fee_amount;
  provider_amount = p.provider_amount;
  currency = p.currency;
  status = p.status;
  occurred_at = at;
}

abbrev pub state_changed_of :
    PaymentIntent → PaymentTransition → PaymentProviderResult → Time → ProviderStateChanged
state_changed_of p t current at = record {
  transaction_id = p.transaction_id;
  provider = p.provider;
  provider_payment_ref = current.external_ref;
  previous_status = t.previous_status;
  status = t.current_status;
  provider_event_id = trim_space current.event_id;
  provider_event_type = trim_space current.event_type;
  amount = current.amount;
  currency = current.currency;
  occurred_at = at;
  state_changed = t.state_changed;
  external_ref_changed = t.external_ref_changed;
}

abbrev pub outcome_of : PaymentIntent → PaymentProviderResult → ℤ → Time → PaymentOutcome
outcome_of p result amount at = record {
  workflow = p.workflow;
  payment_id = p.transaction_id;
  transaction_id = p.transaction_id;
  provider = p.provider;
  clearing_account_key = p.clearing_account_key;
  debit_account_id = p.debit_account_id;
  provider_event_id = trim_space result.event_id;
  provider_event_type = trim_space result.event_type;
  provider_payment_ref = coalesce result.external_ref p.external_ref;
  amount = amount;
  fee_amount = p.fee_amount;
  provider_amount = p.provider_amount;
  currency = p.currency;
  credit_account_id = p.credit_account_id;
  at = at;
}
