-- ===== src/Ledger/Events.antt =====
-- core/modules/ledger/domain/aggregate: from an event to the posting that it carries and back
-- (ledger_account_aggregate.go, ledger_account_event.go).
pub mod RoundTrip
use wechat_clone.Base.{String, Bool, ◌&&◌, Option, none, some, List, [], ◌∷◌, ◌==◌, if◌then◌else◌}
use wechat_clone.Base.Int.{ℤ, pos, negsuc, ltb_ℤ, leb_ℤ, eqb_ℤ, neg64, mul64}
use wechat_clone.Base.Text.{trim_space}
use wechat_clone.Base.Results.{Result, ok, ◌>>=◌}
use wechat_clone.Ledger.Posting.{
  LedgerError, LedgerAccountPosting, PaymentKind, LedgerPaymentEventData, LedgerEvent,
  deposit_from_intent, withdraw_from_intent, deposit_from_refund, withdraw_from_refund,
  deposit_from_chargeback, withdraw_from_chargeback, reserve_withdrawal, receive_withdrawal_hold,
  release_withdrawal, withdraw_released_hold, payment_event, transferred_to_account,
  received_transfer, other_event, kind_name, new_payment_posting, new_transfer_out_posting,
  new_transfer_in_posting,
}

-- `event.EventName`: the name of the event's type.
unfoldable pub event_name : LedgerEvent → String
event_name (payment_event k _) = kind_name k
event_name (transferred_to_account _) = "EventLedgerAccountTransferredToAccount"
event_name (received_transfer _) = "EventLedgerAccountReceivedTransfer"
event_name (other_event name) = name

-- The argument `direction` in the switch of `previewLedgerPostingFromEvent`.
abbrev pub direction : PaymentKind → ℤ
direction deposit_from_intent = pos 1
direction withdraw_from_intent = negsuc 0
direction deposit_from_refund = pos 1
direction withdraw_from_refund = negsuc 0
direction deposit_from_chargeback = pos 1
direction withdraw_from_chargeback = negsuc 0
direction reserve_withdrawal = negsuc 0
direction receive_withdrawal_hold = pos 1
direction release_withdrawal = pos 1
direction withdraw_released_hold = negsuc 0

-- `newLedgerPostingFromPaymentEvent`
unfoldable pub new_posting_from_payment_event :
    String → PaymentKind → LedgerPaymentEventData → Result LedgerError LedgerAccountPosting
new_posting_from_payment_event id k payload = new_payment_posting id (record {
  transaction_id = payload.transaction_id;
  reference_type = kind_name k;
  reference_id = payload.payment_id;
  counterparty_account_id = payload.counterparty_account_id;
  currency = payload.currency;
  amount_delta = mul64 (direction k) payload.amount;
  booked_at = payload.booked_at;
})

-- `previewLedgerPostingFromEvent`: `ok none` is its `false` with no error.
unfoldable pub preview_posting_from_event :
    String → LedgerEvent → Result LedgerError (Option LedgerAccountPosting)
preview_posting_from_event id (payment_event k payload) =
    new_posting_from_payment_event id k payload >>= λ p. ok (some p)
preview_posting_from_event id (transferred_to_account payload) =
    new_transfer_out_posting id payload >>= λ p. ok (some p)
preview_posting_from_event id (received_transfer payload) =
    new_transfer_in_posting id payload >>= λ p. ok (some p)
preview_posting_from_event id (other_event _) = ok none

-- `absInt64`
unfoldable pub abs_int64 : ℤ → ℤ
abs_int64 v = if ltb_ℤ v (pos 0) then neg64 v else v

abbrev pub payment_kinds : List PaymentKind
payment_kinds =
    deposit_from_intent ∷ withdraw_from_intent ∷ deposit_from_refund ∷ withdraw_from_refund
    ∷ deposit_from_chargeback ∷ withdraw_from_chargeback ∷ reserve_withdrawal
    ∷ receive_withdrawal_hold ∷ release_withdrawal ∷ withdraw_released_hold ∷ []

unfoldable pub find_kind : String → List PaymentKind → Option PaymentKind
find_kind t [] = none
find_kind t (k ∷ ks) = if t == kind_name k then some k else find_kind t ks

-- The switch of `newLedgerPaymentEvent` on the posting's reference type.
unfoldable pub kind_of_reference : String → Option PaymentKind
unfolding find_kind
kind_of_reference t = find_kind t payment_kinds

-- `newLedgerPaymentEvent`; `none` is nil.
unfoldable pub new_ledger_payment_event : LedgerAccountPosting → Option LedgerEvent
unfolding kind_of_reference abs_int64
new_ledger_payment_event p = elim (kind_of_reference p.reference_type) [
  | none ↦ none
  | some k ↦ some (
      payment_event k (record {
        transaction_id = p.transaction_id;
        payment_id = p.reference_id;
        counterparty_account_id = p.counterparty_account_id;
        currency = p.currency;
        amount = abs_int64 p.amount_delta;
        booked_at = p.booked_at;
      }))
]

-- `ledgerPaymentReferenceTypeForSucceededAmount`
unfoldable pub reference_type_for_succeeded_amount : ℤ → String
reference_type_for_succeeded_amount delta =
    if leb_ℤ (pos 0) delta then kind_name deposit_from_intent else kind_name withdraw_from_intent

abbrev pub payment_refunded : String
payment_refunded = "PaymentRefundedEvent"

abbrev pub payment_chargeback : String
payment_chargeback = "PaymentChargebackEvent"

-- `ledgerPaymentReferenceTypeForReversal`
unfoldable pub reference_type_for_reversal : String → ℤ → String
reference_type_for_reversal name delta =
    if trim_space name == payment_refunded
    then (if leb_ℤ (pos 0) delta
        then kind_name deposit_from_refund
        else kind_name withdraw_from_refund)
    else if trim_space name == payment_chargeback
    then (if leb_ℤ (pos 0) delta
        then kind_name deposit_from_chargeback
        else kind_name withdraw_from_chargeback)
    else ""

-- `SameLedgerAccountPosting`: every field but the time of booking.
unfoldable pub same_posting : LedgerAccountPosting → LedgerAccountPosting → Bool
same_posting l r =
    l.transaction_id == r.transaction_id
    && l.reference_type == r.reference_type
    && l.reference_id == r.reference_id
    && l.counterparty_account_id == r.counterparty_account_id
    && l.currency == r.currency
    && eqb_ℤ l.amount_delta r.amount_delta
