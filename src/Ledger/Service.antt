-- ===== src/Ledger/Service.antt =====
-- core/modules/ledger/application/service/payment_event_service.go: the ledger events that the
-- service makes of the events of a payment. The clock `now` is an argument.
pub mod Moves
pub mod Pairs
pub mod Meaning
pub mod Handlers
pub mod Undo
pub mod Record
pub mod Order
pub mod Applied
pub mod Repeated
pub mod Stored
pub mod Saved
pub mod Balances
pub mod Again
pub mod Redelivered
pub mod Deliver
use wechat_clone.Base.{
  String, Bool, not, ◌&&◌, Option, none, some, List, [], ◌∷◌, ◌++◌, ◌==◌, if◌then◌else◌,
}
use wechat_clone.Base.Int.{ℤ, pos, ltb_ℤ, neg64}
use wechat_clone.Base.Text.{trim_space, concat, first_non_empty}
use wechat_clone.Base.Time.{Time, time_or_now}
use wechat_clone.Base.Results.{Result, ok, err, ◌>>=◌, map_err}
use wechat_clone.Event.{Event}
use wechat_clone.Ledger.Posting.{
  LedgerError, LedgerAccountPosting, LedgerEvent, kind_name, deposit_from_intent,
  withdraw_from_intent, deposit_from_refund, withdraw_from_refund, deposit_from_chargeback,
  withdraw_from_chargeback, reserve_withdrawal, receive_withdrawal_hold, release_withdrawal,
  withdraw_released_hold, new_payment_posting,
}
use wechat_clone.Ledger.Events.{
  event_name, new_ledger_payment_event, payment_refunded, payment_chargeback,
}
use wechat_clone.Ledger.Booking.{
  BookingError, PaymentSucceededBooking, PaymentReversalBooking, PaymentSucceededBookingInput,
  PaymentReversalBookingInput, ledger_clearing_account_id, new_payment_succeeded_booking,
  new_payment_reversal_booking, succeeded_transaction_id, reversal_transaction_id,
}
use wechat_clone.Payment.Intent.{
  normalize_payment_workflow, withdrawal, provider_clearing_account_key,
}
use wechat_clone.Payment.Events.{PaymentOutcome, WithdrawalRequested}

-- What the ledger's services return as an error. `posting_panic` is the panic of
-- newPaymentPosting.
pub data ServiceError : Type 0 where
  booking_rejected : BookingError → ServiceError
  posting_rejected posting_panic : LedgerError → ServiceError
  posting_unsupported : (reference_type : String) → ServiceError

-- `NewLedgerAccountEvent`, on an event's data that is not nil.
unfoldable pub new_ledger_account_event : String → String → LedgerEvent → Event LedgerEvent
new_ledger_account_event account_id type_name d = record {
  aggregate_id = account_id;
  aggregate_type = type_name;
  version = 0;
  event_name = event_name d;
  event_data = d;
}

-- `NewLedgerAccountEventFromPosting`: `none` is its `false`.
unfoldable pub new_ledger_account_event_from_posting :
    String → LedgerAccountPosting → Option (Event LedgerEvent)
unfolding new_ledger_account_event
new_ledger_account_event_from_posting account_id p = elim (new_ledger_payment_event p) [
  | none ↦ none
  | some d ↦ some (new_ledger_account_event account_id "LedgerAccountAggregate" d)
]

-- The event of a posting, or the error of the two functions below where there is none.
unfoldable pub supported_event :
    String → LedgerAccountPosting → Result ServiceError (Event LedgerEvent)
unfolding new_ledger_account_event_from_posting
supported_event account_id p = elim (new_ledger_account_event_from_posting account_id p) [
  | none ↦ err (posting_unsupported p.reference_type)
  | some e ↦ ok e
]

-- `paymentLedgerEventsFromPostings`
unfoldable pub events_from_postings :
    List (String × LedgerAccountPosting) → Result ServiceError (List (Event LedgerEvent))
unfolding supported_event
events_from_postings [] = ok []
events_from_postings (item ∷ items) = do
  e ← supported_event (item.0) (item.1)
  es ← events_from_postings items
  ok (e ∷ es)

-- `newPaymentPosting`; the account's identifier and the other arguments as a posting.
unfoldable pub posting_or_panic :
    String → LedgerAccountPosting → Result ServiceError LedgerAccountPosting
posting_or_panic account_id input = map_err posting_panic (new_payment_posting account_id input)

-- The arguments of a call of paymentLedgerEventsFromBooking, or of the two calls of
-- newPaymentPosting for one movement of money.
pub record Transfer : Type 0 where
  pub transaction_id : String
  pub payment_id : String
  pub currency : String
  pub amount : ℤ
  pub debit_account_id : String
  pub credit_account_id : String
  pub debit_event_name : String
  pub credit_event_name : String
  pub booked_at : Time

-- The inputs of the two postings of a movement.
abbrev pub debit_input : Transfer → LedgerAccountPosting
debit_input t = record {
  transaction_id = t.transaction_id;
  reference_type = t.debit_event_name;
  reference_id = t.payment_id;
  counterparty_account_id = t.credit_account_id;
  currency = t.currency;
  amount_delta = neg64 t.amount;
  booked_at = t.booked_at;
}

abbrev pub credit_input : Transfer → LedgerAccountPosting
credit_input t = record {
  transaction_id = t.transaction_id;
  reference_type = t.credit_event_name;
  reference_id = t.payment_id;
  counterparty_account_id = t.debit_account_id;
  currency = t.currency;
  amount_delta = t.amount;
  booked_at = t.booked_at;
}

-- `paymentLedgerEventsFromBooking`
unfoldable pub events_from_booking :
    Time → Transfer → Result ServiceError (List (Event LedgerEvent))
unfolding supported_event
events_from_booking now given = do
  let t = record given { booked_at = time_or_now now given.booked_at }
  debit ← map_err posting_rejected (new_payment_posting t.debit_account_id (debit_input t))
  credit ← map_err posting_rejected (new_payment_posting t.credit_account_id (credit_input t))
  debit_event ← supported_event t.debit_account_id debit
  credit_event ← supported_event t.credit_account_id credit
  ok (debit_event ∷ credit_event ∷ [])

-- `paymentLedgerEventsFromPostings` on the postings of a withdrawal's movement: the account that
-- the withdrawal is made from comes first, whether money leaves it (`◌_first`) or comes back to it.
unfoldable pub debit_first_events : Transfer → Result ServiceError (List (Event LedgerEvent))
unfolding posting_or_panic events_from_postings
debit_first_events t = do
  debit ← posting_or_panic t.debit_account_id (debit_input t)
  credit ← posting_or_panic t.credit_account_id (credit_input t)
  events_from_postings ((t.debit_account_id, debit) ∷ (t.credit_account_id, credit) ∷ [])

unfoldable pub credit_first_events : Transfer → Result ServiceError (List (Event LedgerEvent))
unfolding posting_or_panic events_from_postings
credit_first_events t = do
  credit ← posting_or_panic t.credit_account_id (credit_input t)
  debit ← posting_or_panic t.debit_account_id (debit_input t)
  events_from_postings ((t.credit_account_id, credit) ∷ (t.debit_account_id, debit) ∷ [])

-- `resolvePaymentEventID`
unfoldable pub resolve_payment_event_id : String → String → String
resolve_payment_event_id payment_id transaction_id =
    first_non_empty (trim_space payment_id ∷ trim_space transaction_id ∷ [])

-- `debitLedgerEventNameForReversal` and `creditLedgerEventNameForReversal`
unfoldable pub debit_event_name_for_reversal : String → String
debit_event_name_for_reversal name =
    if trim_space name == payment_refunded
    then kind_name withdraw_from_refund
    else if trim_space name == payment_chargeback
    then kind_name withdraw_from_chargeback
    else ""

unfoldable pub credit_event_name_for_reversal : String → String
credit_event_name_for_reversal name =
    if trim_space name == payment_refunded
    then kind_name deposit_from_refund
    else if trim_space name == payment_chargeback
    then kind_name deposit_from_chargeback
    else ""

-- `reversalSuffix`
unfoldable pub reversal_suffix : String → String
reversal_suffix name =
    if trim_space name == payment_refunded
    then "refunded"
    else if trim_space name == payment_chargeback
    then "chargeback"
    else "reversed"

-- `paymentEventService`, without the ledger service that it calls.
pub record PaymentEventService : Type 0 where
  pub fee_account_id : String

-- `NewPaymentEventService`
unfoldable pub new_payment_event_service : String → PaymentEventService
new_payment_event_service fee_account_id = record { fee_account_id = trim_space fee_account_id }

-- A second pair of events for the fee, where there is one and an account to take it.
unfoldable pub with_fee :
    PaymentEventService
    → ℤ
    → Result ServiceError (List (Event LedgerEvent))
    → List (Event LedgerEvent)
    → Result ServiceError (List (Event LedgerEvent))
with_fee s fee fee_events events =
    if ltb_ℤ (pos 0) fee && not (s.fee_account_id == "")
    then (fee_events >>= λ more. ok (events ++ more))
    else ok events

module _ (s : PaymentEventService) (now : Time) where
  -- `paymentWithdrawalRequestedLedgerEvents`: its first movement, and that of the fee.
  abbrev pub requested_principal : WithdrawalRequested → Transfer
  requested_principal payload =
      let id = resolve_payment_event_id payload.payment_id payload.transaction_id in
      record {
        transaction_id = concat ("payment:" ∷ id ∷ ":withdrawal:principal" ∷ []);
        payment_id = id;
        currency = payload.currency;
        amount = payload.amount;
        debit_account_id = trim_space payload.debit_account_id;
        credit_account_id = ledger_clearing_account_id (
            first_non_empty (
              trim_space payload.clearing_account_key
              ∷ provider_clearing_account_key payload.provider
              ∷ []));
        debit_event_name = kind_name reserve_withdrawal;
        credit_event_name = kind_name receive_withdrawal_hold;
        booked_at = payload.requested_at;
      }

  abbrev pub requested_fee : WithdrawalRequested → Transfer
  requested_fee payload =
      let id = resolve_payment_event_id payload.payment_id payload.transaction_id in
      record (requested_principal payload) {
        transaction_id = concat ("payment:" ∷ id ∷ ":withdrawal:fee" ∷ []);
        amount = payload.fee_amount;
        credit_account_id = s.fee_account_id;
      }

  unfoldable pub withdrawal_requested_events :
      WithdrawalRequested → Result ServiceError (List (Event LedgerEvent))
  unfolding debit_first_events with_fee
  withdrawal_requested_events payload =
      debit_first_events (requested_principal payload)
      >>= with_fee s payload.fee_amount (debit_first_events (requested_fee payload))

  -- `paymentFailedLedgerEvents`: the movements back.
  abbrev pub failed_principal : PaymentOutcome → Transfer
  failed_principal payload =
      let id = resolve_payment_event_id payload.payment_id payload.transaction_id in
      record {
        transaction_id = concat ("payment:" ∷ id ∷ ":withdrawal:principal:failed" ∷ []);
        payment_id = id;
        currency = payload.currency;
        amount = payload.amount;
        debit_account_id = ledger_clearing_account_id payload.clearing_account_key;
        credit_account_id = trim_space payload.debit_account_id;
        debit_event_name = kind_name withdraw_released_hold;
        credit_event_name = kind_name release_withdrawal;
        booked_at = payload.at;
      }

  abbrev pub failed_fee : PaymentOutcome → Transfer
  failed_fee payload =
      let id = resolve_payment_event_id payload.payment_id payload.transaction_id in
      record (failed_principal payload) {
        transaction_id = concat ("payment:" ∷ id ∷ ":withdrawal:fee:failed" ∷ []);
        amount = payload.fee_amount;
        debit_account_id = s.fee_account_id;
      }

  unfoldable pub payment_failed_events :
      PaymentOutcome → Result ServiceError (List (Event LedgerEvent))
  unfolding credit_first_events with_fee
  payment_failed_events payload =
      if not (normalize_payment_workflow payload.workflow == withdrawal)
      then ok []
      else (credit_first_events (failed_principal payload)
          >>= with_fee s payload.fee_amount (credit_first_events (failed_fee payload)))

  -- `paymentSucceededLedgerEvents`: the movement of the booking, and that of the fee.
  abbrev pub succeeded_principal : PaymentSucceededBooking → Time → Transfer
  succeeded_principal booking at = record {
    transaction_id = succeeded_transaction_id booking;
    payment_id = booking.payment_id;
    currency = booking.currency;
    amount = booking.amount;
    debit_account_id = booking.debit_account_id;
    credit_account_id = booking.credit_account_id;
    debit_event_name = kind_name withdraw_from_intent;
    credit_event_name = kind_name deposit_from_intent;
    booked_at = at;
  }

  abbrev pub succeeded_fee : PaymentSucceededBooking → PaymentOutcome → Transfer
  succeeded_fee booking payload = record (succeeded_principal booking payload.at) {
    transaction_id = concat ("payment:" ∷ booking.payment_id ∷ ":succeeded:fee" ∷ []);
    amount = payload.fee_amount;
    debit_account_id = ledger_clearing_account_id payload.clearing_account_key;
    credit_account_id = s.fee_account_id;
  }

  abbrev pub succeeded_input : PaymentOutcome → PaymentSucceededBookingInput
  succeeded_input payload = record {
    payment_id = resolve_payment_event_id payload.payment_id payload.transaction_id;
    transaction_id = payload.transaction_id;
    clearing_account_key = payload.clearing_account_key;
    credit_account_id = payload.credit_account_id;
    currency = payload.currency;
    amount = payload.amount;
  }

  unfoldable pub payment_succeeded_events :
      PaymentOutcome → Result ServiceError (List (Event LedgerEvent))
  unfolding events_from_booking with_fee
  payment_succeeded_events payload =
      if normalize_payment_workflow payload.workflow == withdrawal
      then ok []
      else (map_err booking_rejected (new_payment_succeeded_booking (succeeded_input payload))
          >>= λ booking.
              events_from_booking now (succeeded_principal booking payload.at)
              >>= with_fee s payload.fee_amount
                  (events_from_booking now (succeeded_fee booking payload)))

  -- `paymentReversedLedgerEvents`: the movements back.
  abbrev pub reversed_principal : PaymentReversalBooking → Time → Transfer
  reversed_principal booking at = record {
    transaction_id = reversal_transaction_id booking;
    payment_id = booking.payment_id;
    currency = booking.currency;
    amount = booking.amount;
    debit_account_id = booking.debit_account_id;
    credit_account_id = booking.credit_account_id;
    debit_event_name = debit_event_name_for_reversal booking.reversal_type;
    credit_event_name = credit_event_name_for_reversal booking.reversal_type;
    booked_at = at;
  }

  abbrev pub reversed_fee : String → PaymentReversalBooking → PaymentOutcome → Transfer
  reversed_fee reversal_type booking payload = record (reversed_principal booking payload.at) {
    transaction_id =
        concat
          ("payment:" ∷ booking.payment_id ∷ ":" ∷ reversal_suffix reversal_type ∷ ":fee" ∷ []);
    amount = payload.fee_amount;
    debit_account_id = s.fee_account_id;
    credit_account_id = ledger_clearing_account_id payload.clearing_account_key;
    debit_event_name = debit_event_name_for_reversal reversal_type;
    credit_event_name = credit_event_name_for_reversal reversal_type;
  }

  abbrev pub reversal_input : String → PaymentOutcome → PaymentReversalBookingInput
  reversal_input reversal_type payload = record {
    payment_id = resolve_payment_event_id payload.payment_id payload.transaction_id;
    transaction_id = payload.transaction_id;
    clearing_account_key = payload.clearing_account_key;
    credit_account_id = payload.credit_account_id;
    currency = payload.currency;
    amount = payload.amount;
    reversal_type = reversal_type;
  }

  unfoldable pub payment_reversed_events :
      String → PaymentOutcome → Result ServiceError (List (Event LedgerEvent))
  unfolding events_from_booking with_fee
  payment_reversed_events reversal_type payload =
      map_err booking_rejected (new_payment_reversal_booking (reversal_input reversal_type payload))
      >>= λ booking.
          events_from_booking now (reversed_principal booking payload.at)
          >>= with_fee s payload.fee_amount
              (events_from_booking now (reversed_fee reversal_type booking payload))

-- A call of one of the five methods of the service.
pub data Delivery : Type 0 where
  requested : WithdrawalRequested → Delivery
  succeeded failed refunded charged_back : PaymentOutcome → Delivery

-- The ledger events that the method makes, before it hands them to the ledger service.
unfoldable pub ledger_events :
    PaymentEventService → Time → Delivery → Result ServiceError (List (Event LedgerEvent))
ledger_events s now (requested payload) = withdrawal_requested_events s now payload
ledger_events s now (succeeded payload) = payment_succeeded_events s now payload
ledger_events s now (failed payload) = payment_failed_events s now payload
ledger_events s now (refunded payload) = payment_reversed_events s now payment_refunded payload
ledger_events s now (charged_back payload) =
    payment_reversed_events s now payment_chargeback payload
