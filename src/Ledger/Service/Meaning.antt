-- ===== src/Ledger/Service/Meaning.antt =====
-- core/modules/ledger/application/service/payment_event_service.go: the money that each event of a
-- payment moves in the ledger, described without the service's functions.
use wechat_clone.Base.{String, not, ◌&&◌, List, [], ◌∷◌, ◌==◌, if◌then◌else◌}
use wechat_clone.Base.Int.{ℤ, pos, ◌≤ℤ◌, IsInt64, ltb_ℤ}
use wechat_clone.Base.Text.{trim_space, first_non_empty}
use wechat_clone.Base.Text.Case.{upper_trimmed}
use wechat_clone.Ledger.Booking.{ledger_clearing_account_id}
use wechat_clone.Payment.Intent.{
  normalize_payment_workflow, withdrawal, provider_clearing_account_key,
}
use wechat_clone.Payment.Events.{PaymentOutcome, WithdrawalRequested}
use wechat_clone.Ledger.Service.{Delivery, requested, succeeded, failed, refunded, charged_back}
use wechat_clone.Ledger.Service.Moves.{Move}

abbrev pub move : (source target currency : String) → ℤ → Move
move source target currency amount = record {
  source = source;
  target = target;
  currency = upper_trimmed currency;
  amount = amount;
}

-- The move of the fee: none where there is no fee, or no account for it.
abbrev pub fee_move : String → ℤ → Move → List Move
fee_move fee_account fee m = if ltb_ℤ (pos 0) fee && not (fee_account == "") then m ∷ [] else []

-- The clearing account of a withdrawal that is requested.
abbrev pub requested_clearing : WithdrawalRequested → String
requested_clearing payload = ledger_clearing_account_id (
    first_non_empty (
      trim_space payload.clearing_account_key
      ∷ provider_clearing_account_key payload.provider
      ∷ []))

-- Money back to the clearing account, and the fee from the account that took it.
abbrev pub reversed : String → PaymentOutcome → List Move
reversed fee_account p =
    let clearing = ledger_clearing_account_id p.clearing_account_key in
    move (trim_space p.credit_account_id) clearing p.currency p.amount
    ∷ fee_move fee_account p.fee_amount (move fee_account clearing p.currency p.fee_amount)

-- The money that an event of a payment moves: a requested withdrawal takes the amount and the fee
-- from the account, its failure gives them back; a top-up that succeeds brings the amount to the
-- account, and its fee to the account for fees, from the clearing account; a refund and a
-- chargeback take both back.
abbrev pub meaning : String → Delivery → List Move
meaning fee_account (requested p) =
    move (trim_space p.debit_account_id) (requested_clearing p) p.currency p.amount
    ∷ fee_move fee_account p.fee_amount
        (move (trim_space p.debit_account_id) fee_account p.currency p.fee_amount)
meaning fee_account (succeeded p) =
    if normalize_payment_workflow p.workflow == withdrawal
    then []
    else (let clearing = ledger_clearing_account_id p.clearing_account_key in
        move clearing (trim_space p.credit_account_id) p.currency p.amount
        ∷ fee_move fee_account p.fee_amount (move clearing fee_account p.currency p.fee_amount))
meaning fee_account (failed p) =
    if not (normalize_payment_workflow p.workflow == withdrawal)
    then []
    else (let clearing = ledger_clearing_account_id p.clearing_account_key in
        move clearing (trim_space p.debit_account_id) p.currency p.amount
        ∷ fee_move fee_account p.fee_amount
            (move fee_account (trim_space p.debit_account_id) p.currency p.fee_amount))
meaning fee_account (refunded p) = reversed fee_account p
meaning fee_account (charged_back p) = reversed fee_account p

-- The amounts are int64 values, and that of a withdrawal is positive.
abbrev pub IsSound : Delivery → Type 0
IsSound (requested p) = (pos 1 ≤ℤ p.amount) × IsInt64 p.amount × IsInt64 p.fee_amount
IsSound (failed p) = (pos 1 ≤ℤ p.amount) × IsInt64 p.amount × IsInt64 p.fee_amount
IsSound (succeeded p) = IsInt64 p.amount × IsInt64 p.fee_amount
IsSound (refunded p) = IsInt64 p.amount × IsInt64 p.fee_amount
IsSound (charged_back p) = IsInt64 p.amount × IsInt64 p.fee_amount
