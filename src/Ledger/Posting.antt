-- ===== src/Ledger/Posting.antt =====
-- core/modules/ledger/domain: the posting of a ledger account (entity/ledger_account_posting.go),
-- the event types that carry postings (aggregate/ledger_account_event.go), and the normalisation
-- and constructors of postings (aggregate/ledger_account_aggregate.go).
pub mod Normal
use wechat_clone.Base.{String, Bool, false, not, ◌||◌, List, [], ◌∷◌, ◌==◌}
use wechat_clone.Base.Int.{ℤ, pos, eqb_ℤ, neg64}
use wechat_clone.Base.Text.{trim_space}
use wechat_clone.Base.Text.Case.{upper_trimmed}
use wechat_clone.Base.Time.{Time, is_zero, utc}
use wechat_clone.Base.Results.{Result, ok, ◌>>=◌, ◌>>◌, fail_if}
use wechat_clone.Event.{RootError}

pub data LedgerError : Type 0 where
  root_error : RootError → LedgerError
  account_id_required account_id_mismatch transaction_required : LedgerError
  reference_type_invalid reference_id_required counterparty_required : LedgerError
  accounts_must_differ currency_required amount_invalid booked_at_required : LedgerError
  insufficient_funds : LedgerError
  posting_mismatch payment_booking_mismatch : LedgerError
  transfer_mismatch transfer_receive_mismatch : LedgerError
  event_unsupported : LedgerError

pub record LedgerAccountPosting : Type 0 where
  pub transaction_id : String
  pub reference_type : String
  pub reference_id : String
  pub counterparty_account_id : String
  pub currency : String
  pub amount_delta : ℤ
  pub booked_at : Time

-- The ten event types that carry a payment: they have the same fields, and differ by their name.
pub data PaymentKind : Type 0 where
  deposit_from_intent withdraw_from_intent deposit_from_refund withdraw_from_refund : PaymentKind
  deposit_from_chargeback withdraw_from_chargeback : PaymentKind
  reserve_withdrawal receive_withdrawal_hold release_withdrawal : PaymentKind
  withdraw_released_hold : PaymentKind

pub record LedgerPaymentEventData : Type 0 where
  pub transaction_id : String
  pub payment_id : String
  pub counterparty_account_id : String
  pub currency : String
  pub amount : ℤ
  pub booked_at : Time

-- The fields of EventLedgerAccountTransferredToAccount and EventLedgerAccountReceivedTransfer;
-- `peer_account_id` is ToAccountID in the first and FromAccountID in the second.
pub record TransferEventData : Type 0 where
  pub transaction_id : String
  pub peer_account_id : String
  pub currency : String
  pub amount : ℤ
  pub booked_at : Time

-- `eventData interface{}`: a pointer to one of the event types, or a value of any other type, by
-- its name.
pub data LedgerEvent : Type 0 where
  payment_event : PaymentKind → LedgerPaymentEventData → LedgerEvent
  transferred_to_account received_transfer : TransferEventData → LedgerEvent
  other_event : String → LedgerEvent

abbrev pub kind_name : PaymentKind → String
kind_name deposit_from_intent = "EventLedgerAccountDepositFromIntent"
kind_name withdraw_from_intent = "EventLedgerAccountWithdrawFromIntent"
kind_name deposit_from_refund = "EventLedgerAccountDepositFromRefund"
kind_name withdraw_from_refund = "EventLedgerAccountWithdrawFromRefund"
kind_name deposit_from_chargeback = "EventLedgerAccountDepositFromChargeback"
kind_name withdraw_from_chargeback = "EventLedgerAccountWithdrawFromChargeback"
kind_name reserve_withdrawal = "EventLedgerAccountReserveWithdrawal"
kind_name receive_withdrawal_hold = "EventLedgerAccountReceiveWithdrawalHold"
kind_name release_withdrawal = "EventLedgerAccountReleaseWithdrawal"
kind_name withdraw_released_hold = "EventLedgerAccountWithdrawReleasedHold"

abbrev pub internal_transfer : String
internal_transfer = "ledger.transfer.internal"

-- The `case` lists of the switches on a reference type.
unfoldable pub one_of : String → List String → Bool
one_of s [] = false
one_of s (t ∷ ts) = s == t || one_of s ts

abbrev pub known_reference_types : List String
known_reference_types =
    kind_name deposit_from_intent
    ∷ kind_name withdraw_from_intent
    ∷ kind_name deposit_from_refund
    ∷ kind_name withdraw_from_refund
    ∷ kind_name deposit_from_chargeback
    ∷ kind_name withdraw_from_chargeback
    ∷ kind_name reserve_withdrawal
    ∷ kind_name receive_withdrawal_hold
    ∷ kind_name release_withdrawal
    ∷ kind_name withdraw_released_hold
    ∷ internal_transfer
    ∷ []

unfoldable pub is_known_reference_type : String → Bool
unfolding one_of
is_known_reference_type s = one_of s known_reference_types

-- `requiresNonNegativeBalance`
unfoldable pub requires_non_negative_balance : String → Bool
unfolding one_of
requires_non_negative_balance reference_type = not (
    one_of (trim_space reference_type) (
      kind_name deposit_from_intent
      ∷ kind_name withdraw_from_intent
      ∷ kind_name deposit_from_refund
      ∷ kind_name withdraw_from_refund
      ∷ kind_name deposit_from_chargeback
      ∷ kind_name withdraw_from_chargeback
      ∷ kind_name receive_withdrawal_hold
      ∷ kind_name withdraw_released_hold
      ∷ []))

-- The fields of a posting as `normalizeLedgerAccountPosting` returns them.
unfoldable pub normalized : LedgerAccountPosting → LedgerAccountPosting
normalized p = record {
  transaction_id = trim_space p.transaction_id;
  reference_type = trim_space p.reference_type;
  reference_id = trim_space p.reference_id;
  counterparty_account_id = trim_space p.counterparty_account_id;
  currency = upper_trimmed p.currency;
  amount_delta = p.amount_delta;
  booked_at = utc p.booked_at;
}

-- The tests of `normalizeLedgerAccountPosting`, in their order, on the trimmed values.
unfoldable pub validate_posting : String → LedgerAccountPosting → Result LedgerError (Unit {0})
validate_posting account_id p = do
  fail_if (account_id == "") account_id_required
  fail_if (not (is_known_reference_type p.reference_type)) reference_type_invalid
  fail_if (p.transaction_id == "") transaction_required
  fail_if (p.reference_id == "") reference_id_required
  fail_if (p.counterparty_account_id == "") counterparty_required
  fail_if (p.counterparty_account_id == account_id) accounts_must_differ
  fail_if (p.currency == "") currency_required
  fail_if (eqb_ℤ p.amount_delta (pos 0)) amount_invalid
  fail_if (is_zero p.booked_at) booked_at_required

-- `normalizeLedgerAccountPosting`
unfoldable pub normalize_ledger_account_posting :
    String → LedgerAccountPosting → Result LedgerError (String × LedgerAccountPosting)
normalize_ledger_account_posting id p =
    validate_posting (trim_space id) (normalized p) >> ok (trim_space id, normalized p)

-- `newLedgerPosting`
unfoldable pub new_ledger_posting : LedgerAccountPosting → Result LedgerError LedgerAccountPosting
new_ledger_posting p = do
  let q = normalized p
  fail_if (q.transaction_id == "") transaction_required
  fail_if (q.currency == "") currency_required
  fail_if (eqb_ℤ p.amount_delta (pos 0)) amount_invalid
  fail_if (is_zero p.booked_at) booked_at_required
  ok q

-- `NewLedgerAccountPaymentPosting`; the input struct is the account's id and the other fields.
unfoldable pub new_payment_posting :
    String → LedgerAccountPosting → Result LedgerError LedgerAccountPosting
new_payment_posting id input = do
  posting ← new_ledger_posting input
  normalized ← normalize_ledger_account_posting id posting
  ok (normalized.1)

-- The input that the two transfer constructors build.
abbrev pub transfer_posting : TransferEventData → ℤ → LedgerAccountPosting
transfer_posting input delta = record {
  transaction_id = input.transaction_id;
  reference_type = internal_transfer;
  reference_id = input.transaction_id;
  counterparty_account_id = input.peer_account_id;
  currency = input.currency;
  amount_delta = delta;
  booked_at = input.booked_at;
}

-- `NewLedgerAccountTransferOutPosting`
unfoldable pub new_transfer_out_posting :
    String → TransferEventData → Result LedgerError LedgerAccountPosting
new_transfer_out_posting id input =
    new_payment_posting id (transfer_posting input (neg64 input.amount))

-- `NewLedgerAccountTransferInPosting`
unfoldable pub new_transfer_in_posting :
    String → TransferEventData → Result LedgerError LedgerAccountPosting
new_transfer_in_posting id input = new_payment_posting id (transfer_posting input input.amount)

-- The event data that `TransferToAccount` and `ReceiveTransfer` build: the fields of the posting,
-- and the amount as it was given.
abbrev pub event_data : TransferEventData → LedgerAccountPosting → TransferEventData
event_data input p = record {
  transaction_id = p.transaction_id;
  peer_account_id = p.counterparty_account_id;
  currency = p.currency;
  amount = input.amount;
  booked_at = p.booked_at;
}
