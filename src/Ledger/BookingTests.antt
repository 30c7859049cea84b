-- ===== src/Ledger/BookingTests.antt =====
-- Tests of core/modules/ledger/domain/entity: a payment, its refund and a transfer as ledger
-- transactions, and the theorems about them at these inputs.
use wechat_clone.Base.{◌≡◌, refl, ◌∷◌, [], List, false, arith, map, ◌==◌}
use wechat_clone.Base.Int.{pos, ◌+ℤ◌, neg64, neg_ℤ, add64, wrap64}
use wechat_clone.Base.Text.{trim_space, to_upper, to_lower, concat}
use wechat_clone.Base.Text.Case.{upper_trimmed, lower_trimmed}
use wechat_clone.Base.Results.{ok, err}
use wechat_clone.Ledger.Transaction.{
  LedgerEntryInput, LedgerTransaction, new_ledger_transaction, entries_currency_mixed, entry_of,
}
use wechat_clone.Ledger.Transaction.Balanced.{
  IsTransactionOf, new_ledger_transaction-IsTransactionOf,
  new_ledger_transaction_of_IsTransactionOf,
}
use wechat_clone.Ledger.Booking.{
  PaymentSucceededBooking, PaymentSucceededBookingInput, PaymentReversalBooking,
  PaymentReversalBookingInput, TransferBooking, ledger_clearing_account_id,
  normalize_payment_booking_type, new_payment_succeeded_booking, new_payment_reversal_booking,
  new_transfer_booking, succeeded_transaction_id, succeeded_entries, reversal_transaction_id,
  reversal_entries, transfer_entries,
}
use wechat_clone.Ledger.Booking.Entries.{
  moved, succeeded_booking_accepted, reversal_booking_accepted, transfer_booking_accepted,
  reversal_undoes,
}

abbrev two_inputs : List LedgerEntryInput
two_inputs =
    record { account_id = " a "; currency = "usd"; amount = neg64 (pos 5) }
    ∷ record { account_id = "b"; currency = "USD"; amount = pos 5 }
    ∷ []

abbrev two_way : LedgerTransaction
two_way = record {
  transaction_id = "t1";
  currency = "USD";
  created_at = 3;
  entries = map (entry_of "t1" 3) two_inputs;
}

two_way_made : new_ledger_transaction 3 " t1" two_inputs ≡ ok two_way
unfolding new_ledger_transaction trim_space upper_trimmed to_upper add64 neg64 neg_ℤ wrap64 ◌+ℤ◌
two_way_made = refl

mixed_currencies :
    new_ledger_transaction 3 "t1" (
      record { account_id = "a"; currency = "usd"; amount = pos 5 }
      ∷ record { account_id = "b"; currency = "eur"; amount = neg64 (pos 5) }
      ∷ [])
    ≡ err entries_currency_mixed
unfolding new_ledger_transaction trim_space upper_trimmed to_upper add64 neg64 neg_ℤ wrap64 ◌+ℤ◌
mixed_currencies = refl

new_ledger_transaction-IsTransactionOf_example : IsTransactionOf 3 " t1" two_inputs two_way
new_ledger_transaction-IsTransactionOf_example =
    new_ledger_transaction-IsTransactionOf 3 " t1" two_inputs two_way two_way_made

two_way_described : IsTransactionOf 3 " t1" two_inputs two_way
unfolding trim_space upper_trimmed to_upper neg64 neg_ℤ wrap64 ◌+ℤ◌
two_way_described = record {
  id_given = refl;
  transaction_id = refl;
  created_at = refl;
  entries = refl;
  enough = refl;
  valid = (
    record {
      account_given = refl;
      currency_given = refl;
      currency_shared = refl;
      amount_nonzero = refl;
    },
    (
      record {
        account_given = refl;
        currency_given = refl;
        currency_shared = refl;
        amount_nonzero = refl;
      },
      tt,
    ),
  );
  balanced = refl;
}

new_ledger_transaction_of_IsTransactionOf_example :
    new_ledger_transaction 3 " t1" two_inputs ≡ ok two_way
new_ledger_transaction_of_IsTransactionOf_example =
    new_ledger_transaction_of_IsTransactionOf 3 " t1" two_inputs two_way two_way_described

abbrev paid : PaymentSucceededBookingInput
paid = record {
  payment_id = "";
  transaction_id = "pay-1";
  clearing_account_key = " Provider:Stripe";
  credit_account_id = "alice";
  currency = "usd";
  amount = pos 100;
}

abbrev back : PaymentReversalBookingInput
back = record {
  payment_id = "pay-1";
  transaction_id = "";
  clearing_account_key = "provider:stripe";
  credit_account_id = "alice ";
  currency = "USD";
  amount = pos 100;
  reversal_type = "PaymentRefundedEvent";
}

abbrev paid_booking : PaymentSucceededBooking
paid_booking = record {
  payment_id = "pay-1";
  clearing_account_key = "provider:stripe";
  debit_account_id = "ledger:clearing:provider:stripe";
  credit_account_id = "alice";
  currency = "USD";
  amount = pos 100;
}

abbrev back_booking : PaymentReversalBooking
back_booking = record {
  payment_id = "pay-1";
  clearing_account_key = "provider:stripe";
  reversal_type = "PaymentRefundedEvent";
  debit_account_id = "alice";
  credit_account_id = "ledger:clearing:provider:stripe";
  currency = "USD";
  amount = pos 100;
}

abbrev moving : TransferBooking
moving = record { from_account_id = "a"; to_account_id = "b"; currency = "USD"; amount = pos 7 }

paid_made : new_payment_succeeded_booking paid ≡ ok paid_booking
unfolding new_payment_succeeded_booking trim_space upper_trimmed lower_trimmed to_upper to_lower
    ledger_clearing_account_id concat
paid_made = refl

back_made : new_payment_reversal_booking back ≡ ok back_booking
unfolding new_payment_reversal_booking trim_space upper_trimmed lower_trimmed to_upper to_lower
    ledger_clearing_account_id concat normalize_payment_booking_type
back_made = refl

moving_made : new_transfer_booking moving ≡ ok moving
unfolding new_transfer_booking trim_space upper_trimmed to_upper
moving_made = refl

same_key : lower_trimmed paid.clearing_account_key ≡ lower_trimmed back.clearing_account_key
unfolding trim_space lower_trimmed to_lower
same_key = refl

same_account : trim_space paid.credit_account_id ≡ trim_space back.credit_account_id
unfolding trim_space
same_account = refl

same_currency : upper_trimmed paid.currency ≡ upper_trimmed back.currency
unfolding trim_space upper_trimmed to_upper
same_currency = refl

id_given : (trim_space "t2" == "") ≡ false
unfolding trim_space
id_given = refl

succeeded_booking_accepted_example :
    (t : LedgerTransaction) × (new_ledger_transaction 3
        (succeeded_transaction_id paid_booking)
        (succeeded_entries paid_booking)
      ≡ ok t)
    × (t.currency ≡ "USD")
succeeded_booking_accepted_example =
    succeeded_booking_accepted 3 paid paid_booking (omega arith) paid_made

reversal_booking_accepted_example :
    (t : LedgerTransaction) × (new_ledger_transaction 3
        (reversal_transaction_id back_booking)
        (reversal_entries back_booking)
      ≡ ok t)
    × (t.currency ≡ "USD")
reversal_booking_accepted_example =
    reversal_booking_accepted 3 back back_booking (omega arith) back_made

transfer_booking_accepted_example :
    (t : LedgerTransaction) × (new_ledger_transaction 3 "t2" (transfer_entries moving) ≡ ok t)
    × (t.currency ≡ "USD")
transfer_booking_accepted_example =
    transfer_booking_accepted 3 "t2" moving moving id_given (omega arith) moving_made

reversal_undoes_example :
    wrap64 (
      moved "alice" "USD" (succeeded_entries paid_booking)
      +ℤ moved "alice" "USD" (reversal_entries back_booking))
    ≡ pos 0
reversal_undoes_example =
    reversal_undoes paid back paid_booking back_booking "alice" "USD" same_key same_account
      same_currency refl paid_made back_made
