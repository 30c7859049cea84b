-- ===== src/Ledger/ServiceTests.antt =====
-- Runs of the payment event service on concrete events, for
-- core/modules/ledger/application/service/payment_event_service.go.
use wechat_clone.Base.{ℕ, ◌≡◌, refl, String, List, [], ◌∷◌, arith}
use wechat_clone.Base.Int.{ℤ, pos, neg64, neg_ℤ, wrap64, ◌+ℤ◌}
use wechat_clone.Base.Text.{trim_space, is_space, concat, to_upper, to_lower, first_non_empty}
use wechat_clone.Base.Text.Case.{upper_trimmed, lower_trimmed}
use wechat_clone.Base.Results.{ok}
use wechat_clone.Event.{Event}
use wechat_clone.Ledger.Posting.{
  LedgerEvent, PaymentKind, reserve_withdrawal, receive_withdrawal_hold, release_withdrawal,
  withdraw_released_hold, payment_event, kind_name, is_known_reference_type, one_of, normalized,
  validate_posting, normalize_ledger_account_posting, new_ledger_posting, new_payment_posting,
}
use wechat_clone.Ledger.Events.{
  event_name, abs_int64, kind_of_reference, find_kind, new_ledger_payment_event,
}
use wechat_clone.Ledger.Booking.{ledger_clearing_account_id}
use wechat_clone.Payment.Intent.{normalize_payment_workflow, provider_clearing_account_key}
use wechat_clone.Payment.Events.{PaymentOutcome, WithdrawalRequested}
use wechat_clone.Ledger.Service.{
  requested, failed, new_ledger_account_event, new_ledger_account_event_from_posting,
  supported_event, events_from_postings, posting_or_panic, debit_first_events, credit_first_events,
  resolve_payment_event_id, new_payment_event_service, with_fee, withdrawal_requested_events,
  payment_failed_events, ledger_events,
}
use wechat_clone.Ledger.Service.Moves.{Carry, effect}
use wechat_clone.Ledger.Service.Meaning.{meaning}
use wechat_clone.Ledger.Service.Handlers.{ledger_events-Carry}
use wechat_clone.Ledger.Service.Undo.{Undoes, failure, ledger_events_cancel}

abbrev pub asked : WithdrawalRequested
asked = record {
  payment_id = "p1";
  transaction_id = "t1";
  provider = "stripe";
  clearing_account_key = "";
  debit_account_id = " acc:7 ";
  destination_account_id = "ba_1";
  amount = pos 1000;
  fee_amount = pos 25;
  provider_amount = pos 1000;
  currency = "usd";
  status = "CREATING";
  requested_at = 5;
}

abbrev pub declined : PaymentOutcome
declined = record {
  workflow = "withdrawal";
  payment_id = "p1";
  transaction_id = "t1";
  provider = "stripe";
  clearing_account_key = "provider:stripe";
  debit_account_id = "acc:7";
  provider_event_id = "e1";
  provider_event_type = "payout.failed";
  provider_payment_ref = "po_1";
  amount = pos 1000;
  fee_amount = pos 25;
  provider_amount = pos 1000;
  currency = "USD";
  credit_account_id = "";
  at = 9;
}

abbrev written :
    (account : String)
    → PaymentKind
    → (transaction counterparty : String) → ℤ
    → (at : ℕ) → Event LedgerEvent
written account k transaction counterparty amount at = record {
  aggregate_id = account;
  aggregate_type = "LedgerAccountAggregate";
  version = 0;
  event_name = kind_name k;
  event_data = payment_event k (record {
    transaction_id = transaction;
    payment_id = "p1";
    counterparty_account_id = counterparty;
    currency = "USD";
    amount = amount;
    booked_at = at;
  });
}

abbrev pub held : List (Event LedgerEvent)
held =
    written "acc:7" reserve_withdrawal "payment:p1:withdrawal:principal"
      "ledger:clearing:provider:stripe" (pos 1000) 5
    ∷ written "ledger:clearing:provider:stripe" receive_withdrawal_hold
        "payment:p1:withdrawal:principal" "acc:7" (pos 1000) 5
    ∷ written "acc:7" reserve_withdrawal "payment:p1:withdrawal:fee" "fees" (pos 25) 5
    ∷ written "fees" receive_withdrawal_hold "payment:p1:withdrawal:fee" "acc:7" (pos 25) 5
    ∷ []

abbrev pub given_back : List (Event LedgerEvent)
given_back =
    written "acc:7" release_withdrawal "payment:p1:withdrawal:principal:failed"
      "ledger:clearing:provider:stripe" (pos 1000) 9
    ∷ written "ledger:clearing:provider:stripe" withdraw_released_hold
        "payment:p1:withdrawal:principal:failed" "acc:7" (pos 1000) 9
    ∷ written "acc:7" release_withdrawal "payment:p1:withdrawal:fee:failed" "fees" (pos 25) 9
    ∷ written "fees" withdraw_released_hold "payment:p1:withdrawal:fee:failed" "acc:7" (pos 25) 9
    ∷ []

pub held_run : ledger_events (new_payment_event_service " fees ") 11 (requested asked) ≡ ok held
unfolding ledger_events new_payment_event_service withdrawal_requested_events with_fee
    debit_first_events posting_or_panic events_from_postings supported_event
    new_ledger_account_event_from_posting new_ledger_account_event new_ledger_payment_event
    kind_of_reference find_kind abs_int64 event_name new_payment_posting new_ledger_posting
    normalize_ledger_account_posting validate_posting normalized is_known_reference_type one_of
    resolve_payment_event_id first_non_empty ledger_clearing_account_id
    provider_clearing_account_key trim_space is_space concat upper_trimmed lower_trimmed to_upper
    to_lower neg64 wrap64 neg_ℤ
held_run = refl

pub given_back_run :
    ledger_events (new_payment_event_service " fees ") 12 (failed declined) ≡ ok given_back
unfolding ledger_events new_payment_event_service payment_failed_events with_fee credit_first_events
    posting_or_panic events_from_postings supported_event new_ledger_account_event_from_posting
    new_ledger_account_event new_ledger_payment_event kind_of_reference find_kind abs_int64
    event_name new_payment_posting new_ledger_posting normalize_ledger_account_posting
    validate_posting normalized is_known_reference_type one_of resolve_payment_event_id
    first_non_empty ledger_clearing_account_id normalize_payment_workflow trim_space is_space concat
    upper_trimmed lower_trimmed to_upper to_lower neg64 wrap64 neg_ℤ
given_back_run = refl

pub undone : Undoes (requested asked) (failed declined)
unfolding normalize_payment_workflow ledger_clearing_account_id provider_clearing_account_key
    first_non_empty trim_space is_space concat upper_trimmed lower_trimmed to_upper to_lower
undone = failure asked declined (record {
  workflow = refl;
  account = refl;
  clearing = refl;
  currency = refl;
  amount = refl;
  fee = refl;
})

ledger_events-Carry_example : Carry held (meaning (trim_space " fees ") (requested asked))
ledger_events-Carry_example =
    ledger_events-Carry " fees " 11 (requested asked) held (omega arith, omega arith, omega arith)
      held_run

ledger_events_cancel_example : effect "acc:7" "USD" held +ℤ effect "acc:7" "USD" given_back ≡ pos 0
ledger_events_cancel_example =
    ledger_events_cancel "acc:7" "USD" " fees " 11 12 (requested asked) (failed declined) held
      given_back (omega arith, omega arith, omega arith) (omega arith, omega arith, omega arith)
      undone held_run given_back_run
