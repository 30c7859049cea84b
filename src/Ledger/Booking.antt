-- ===== src/Ledger/Booking.antt =====
-- core/modules/ledger/domain/entity: the bookings of payments (payment_booking.go) and of
-- transfers (transfer_booking.go), and the two entries that each of them makes.
pub mod Entries
use wechat_clone.Base.{String, List, [], ◌∷◌, ◌==◌, if◌then◌else◌}
use wechat_clone.Base.Int.{ℤ, pos, leb_ℤ, neg64}
use wechat_clone.Base.Text.{trim_space, concat}
use wechat_clone.Base.Text.Case.{upper_trimmed, lower_trimmed}
use wechat_clone.Base.Results.{Result, ok, ◌>>=◌, ◌>>◌, fail_if}
use wechat_clone.Ledger.Events.{payment_refunded, payment_chargeback}
use wechat_clone.Ledger.Transaction.{LedgerEntryInput}

pub data BookingError : Type 0 where
  payment_id_required clearing_key_required credit_account_required : BookingError
  currency_required accounts_must_differ amount_invalid type_invalid : BookingError
  from_account_required to_account_required transfer_accounts_must_differ : BookingError

pub record PaymentSucceededBooking : Type 0 where
  pub payment_id : String
  pub clearing_account_key : String
  pub debit_account_id : String
  pub credit_account_id : String
  pub currency : String
  pub amount : ℤ

pub record PaymentSucceededBookingInput : Type 0 where
  pub payment_id : String
  pub transaction_id : String
  pub clearing_account_key : String
  pub credit_account_id : String
  pub currency : String
  pub amount : ℤ

pub record PaymentReversalBooking : Type 0 where
  pub payment_id : String
  pub clearing_account_key : String
  pub reversal_type : String
  pub debit_account_id : String
  pub credit_account_id : String
  pub currency : String
  pub amount : ℤ

pub record PaymentReversalBookingInput : Type 0 where
  pub payment_id : String
  pub transaction_id : String
  pub clearing_account_key : String
  pub credit_account_id : String
  pub currency : String
  pub amount : ℤ
  pub reversal_type : String

pub record TransferBooking : Type 0 where
  pub from_account_id : String
  pub to_account_id : String
  pub currency : String
  pub amount : ℤ

-- `ledgerClearingAccountID`
unfoldable pub ledger_clearing_account_id : String → String
ledger_clearing_account_id key = concat ("ledger:clearing:" ∷ lower_trimmed key ∷ [])

-- `normalizePaymentBookingType`
unfoldable pub normalize_payment_booking_type : String → String
normalize_payment_booking_type value =
    if trim_space value == payment_refunded
    then payment_refunded
    else if trim_space value == payment_chargeback
    then payment_chargeback
    else ""

-- The identifier that both constructors of payment bookings settle on.
abbrev pub booking_payment_id : String → String → String
booking_payment_id payment_id transaction_id =
    if trim_space payment_id == "" then trim_space transaction_id else trim_space payment_id

-- `NewPaymentSucceededBooking`
unfoldable pub new_payment_succeeded_booking :
    PaymentSucceededBookingInput → Result BookingError PaymentSucceededBooking
new_payment_succeeded_booking input = do
  let id = booking_payment_id input.payment_id input.transaction_id
  fail_if (id == "") payment_id_required
  let key = lower_trimmed input.clearing_account_key
  fail_if (key == "") clearing_key_required
  let credit = trim_space input.credit_account_id
  fail_if (credit == "") credit_account_required
  let currency = upper_trimmed input.currency
  fail_if (currency == "") currency_required
  fail_if (leb_ℤ input.amount (pos 0)) amount_invalid
  let debit = ledger_clearing_account_id key
  fail_if (debit == credit) accounts_must_differ
  ok (record {
    payment_id = id;
    clearing_account_key = key;
    debit_account_id = debit;
    credit_account_id = credit;
    currency = currency;
    amount = input.amount;
  })

-- `NewPaymentReversalBooking`
unfoldable pub new_payment_reversal_booking :
    PaymentReversalBookingInput → Result BookingError PaymentReversalBooking
new_payment_reversal_booking input = do
  let id = booking_payment_id input.payment_id input.transaction_id
  fail_if (id == "") payment_id_required
  let kind = normalize_payment_booking_type input.reversal_type
  fail_if (kind == "") type_invalid
  let key = lower_trimmed input.clearing_account_key
  fail_if (key == "") clearing_key_required
  let debit = trim_space input.credit_account_id
  fail_if (debit == "") credit_account_required
  let currency = upper_trimmed input.currency
  fail_if (currency == "") currency_required
  fail_if (leb_ℤ input.amount (pos 0)) amount_invalid
  let credit = ledger_clearing_account_id key
  fail_if (debit == credit) accounts_must_differ
  ok (record {
    payment_id = id;
    clearing_account_key = key;
    reversal_type = kind;
    debit_account_id = debit;
    credit_account_id = credit;
    currency = currency;
    amount = input.amount;
  })

-- `NewTransferBooking`; its input has the fields of the booking.
unfoldable pub new_transfer_booking : TransferBooking → Result BookingError TransferBooking
new_transfer_booking input = do
  let source = trim_space input.from_account_id
  fail_if (source == "") from_account_required
  let target = trim_space input.to_account_id
  fail_if (target == "") to_account_required
  fail_if (source == target) transfer_accounts_must_differ
  let currency = upper_trimmed input.currency
  fail_if (currency == "") currency_required
  fail_if (leb_ℤ input.amount (pos 0)) amount_invalid
  ok (record {
    from_account_id = source;
    to_account_id = target;
    currency = currency;
    amount = input.amount;
  })

-- The two entries of a booking: the amount goes out of one account and into the other.
abbrev pub two_entries : (debit credit currency : String) → ℤ → List LedgerEntryInput
two_entries debit credit currency amount =
    record { account_id = debit; currency = currency; amount = neg64 amount }
    ∷ record { account_id = credit; currency = currency; amount = amount }
    ∷ []

-- The methods of the bookings. `LedgerTransactionID` of a succeeded payment, and its entries.
unfoldable pub succeeded_transaction_id : PaymentSucceededBooking → String
succeeded_transaction_id b = concat ("payment:" ∷ trim_space b.payment_id ∷ ":succeeded" ∷ [])

unfoldable pub succeeded_entries : PaymentSucceededBooking → List LedgerEntryInput
succeeded_entries b = two_entries b.debit_account_id b.credit_account_id b.currency b.amount

-- `LedgerTransactionID` and `LedgerEntries` of a reversal.
unfoldable pub reversal_transaction_id : PaymentReversalBooking → String
reversal_transaction_id b =
    let suffix =
      if b.reversal_type == payment_refunded
      then "refunded"
      else if b.reversal_type == payment_chargeback
      then "chargeback"
      else "reversed" in
    concat ("payment:" ∷ trim_space b.payment_id ∷ ":" ∷ suffix ∷ [])

unfoldable pub reversal_entries : PaymentReversalBooking → List LedgerEntryInput
reversal_entries b = two_entries b.debit_account_id b.credit_account_id b.currency b.amount

-- `LedgerEntries` of a transfer.
unfoldable pub transfer_entries : TransferBooking → List LedgerEntryInput
transfer_entries b = two_entries b.from_account_id b.to_account_id b.currency b.amount
