-- ===== src/Payment/Events.antt =====
-- core/shared/contracts/events (the payment events) and
-- core/modules/payment/domain/aggregate/payment_intent_aggregate_event.go: the events of a payment
-- intent. The four events that end a payment, or undo it, share their first fields.
use wechat_clone.Base.{String, Bool}
use wechat_clone.Base.Int.{ℤ}
use wechat_clone.Base.Time.{Time}
use wechat_clone.Base.Maps.{Map}

-- `PaymentCreatedEvent`
pub record PaymentCreated : Type 0 where
  pub workflow : String
  pub payment_id : String
  pub transaction_id : String
  pub provider : String
  pub clearing_account_key : String
  pub debit_account_id : String
  pub amount : ℤ
  pub fee_amount : ℤ
  pub provider_amount : ℤ
  pub currency : String
  pub credit_account_id : String
  pub status : String
  pub metadata : Map String
  pub created_at : Time

-- `PaymentWithdrawalRequestedEvent`
pub record WithdrawalRequested : Type 0 where
  pub payment_id : String
  pub transaction_id : String
  pub provider : String
  pub clearing_account_key : String
  pub debit_account_id : String
  pub destination_account_id : String
  pub amount : ℤ
  pub fee_amount : ℤ
  pub provider_amount : ℤ
  pub currency : String
  pub status : String
  pub requested_at : Time

-- `PaymentCheckoutSessionCreatedEvent`
pub record CheckoutSessionCreated : Type 0 where
  pub workflow : String
  pub payment_id : String
  pub transaction_id : String
  pub provider : String
  pub provider_payment_ref : String
  pub checkout_url : String
  pub amount : ℤ
  pub fee_amount : ℤ
  pub provider_amount : ℤ
  pub currency : String
  pub status : String
  pub occurred_at : Time

-- `PaymentProviderStateChangedEvent`
pub record ProviderStateChanged : Type 0 where
  pub transaction_id : String
  pub provider : String
  pub provider_payment_ref : String
  pub previous_status : String
  pub status : String
  pub provider_event_id : String
  pub provider_event_type : String
  pub amount : ℤ
  pub currency : String
  pub occurred_at : Time
  pub state_changed : Bool
  pub external_ref_changed : Bool

-- The fields that `PaymentSucceededEvent`, `PaymentFailedEvent`, `PaymentRefundedEvent` and
-- `PaymentChargebackEvent` share; `at` is the time of each.
pub record PaymentOutcome : Type 0 where
  pub workflow : String
  pub payment_id : String
  pub transaction_id : String
  pub provider : String
  pub clearing_account_key : String
  pub debit_account_id : String
  pub provider_event_id : String
  pub provider_event_type : String
  pub provider_payment_ref : String
  pub amount : ℤ
  pub fee_amount : ℤ
  pub provider_amount : ℤ
  pub currency : String
  pub credit_account_id : String
  pub at : Time

-- The events. The last three of the outcomes carry their idempotency key, a failure its status.
pub data PaymentEvent : Type 0 where
  payment_created : PaymentCreated → PaymentEvent
  withdrawal_requested : WithdrawalRequested → PaymentEvent
  checkout_session_created : CheckoutSessionCreated → PaymentEvent
  provider_state_changed : ProviderStateChanged → PaymentEvent
  payment_succeeded : PaymentOutcome → (idempotency_key : String) → PaymentEvent
  payment_failed : PaymentOutcome → (status : String) → PaymentEvent
  payment_refunded : PaymentOutcome → (idempotency_key : String) → PaymentEvent
  payment_chargeback : PaymentOutcome → (idempotency_key : String) → PaymentEvent

abbrev pub succeeded_name : String
succeeded_name = "PaymentSucceededEvent"

abbrev pub refunded_name : String
refunded_name = "PaymentRefundedEvent"

abbrev pub chargeback_name : String
chargeback_name = "PaymentChargebackEvent"

-- The name that `event.EventName` finds for an event.
unfoldable pub payment_event_name : PaymentEvent → String
payment_event_name (payment_created _) = "PaymentCreatedEvent"
payment_event_name (withdrawal_requested _) = "PaymentWithdrawalRequestedEvent"
payment_event_name (checkout_session_created _) = "PaymentCheckoutSessionCreatedEvent"
payment_event_name (provider_state_changed _) = "PaymentProviderStateChangedEvent"
payment_event_name (payment_succeeded _ _) = succeeded_name
payment_event_name (payment_failed _ _) = "PaymentFailedEvent"
payment_event_name (payment_refunded _ _) = refunded_name
payment_event_name (payment_chargeback _ _) = chargeback_name
