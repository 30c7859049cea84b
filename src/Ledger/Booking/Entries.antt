-- ===== src/Ledger/Booking/Entries.antt =====
-- core/modules/ledger/domain/entity: the entries of a booking make a ledger transaction, and the
-- entries of a reversal undo those of the payment.
use Prim.Native.String.{◌++◌}
use wechat_clone.Base.{
  ◌≡◌, refl, sym, ap, ◌∙◌, String, Bool, true, false, List, [], ◌∷◌, map, ◌==◌, ◌&&◌, arith,
  if◌then◌else◌,
}
use wechat_clone.Base.Int.{
  ℤ, pos, ltb_ℤ, leb_ℤ, IsInt64, eqb_ℤ, ◌+ℤ◌, neg_ℤ, neg64, wrap64, int_laws, wrap64-add_left,
  wrap64-add_both, neg64_negative,
}
use wechat_clone.Base.Text.{trim_space, trim_space_idem, concat, is_space}
use wechat_clone.Base.Text.Append.{trim_space-append_nonempty}
use wechat_clone.Base.Text.Case.{upper_trimmed, lower_trimmed, upper_trimmed_idem}
use wechat_clone.Base.Time.{Time}
use wechat_clone.Base.Results.{ok}
use wechat_clone.Ledger.Transaction.{
  LedgerEntryInput, LedgerTransaction, entry_of, new_ledger_transaction,
}
use wechat_clone.Ledger.Transaction.Balanced.{new_ledger_transaction_of_IsTransactionOf}
use wechat_clone.Ledger.Booking.{
  PaymentSucceededBooking, PaymentSucceededBookingInput, PaymentReversalBooking,
  PaymentReversalBookingInput, TransferBooking, ledger_clearing_account_id,
  new_payment_succeeded_booking, new_payment_reversal_booking, new_transfer_booking, two_entries,
  succeeded_transaction_id, succeeded_entries, reversal_transaction_id, reversal_entries,
  transfer_entries,
}

wrap64_zero : wrap64 (pos 0) ≡ pos 0
unfolding wrap64
wrap64_zero = refl

neg64_cancels : (m : ℤ) → wrap64 (neg64 m +ℤ m) ≡ pos 0
unfolding neg64
neg64_cancels m = wrap64-add_left (neg_ℤ m) m ∙ ap wrap64 (omega int_laws) ∙ wrap64_zero

negative_nonzero : (x : ℤ) → ltb_ℤ x (pos 0) ≡ true → eqb_ℤ x (pos 0) ≡ false
negative_nonzero x h = ground arith

-- The two entries of a positive amount make a transaction, under any identifier that is not blank.
two_entries_accepted :
    (now : Time) (id debit credit currency : String) (amount : ℤ)
    → (trim_space id == "") ≡ false
    → (trim_space debit == "") ≡ false
    → (trim_space credit == "") ≡ false
    → (currency == "") ≡ false
    → upper_trimmed currency ≡ currency
    → IsInt64 amount
    → leb_ℤ amount (pos 0) ≡ false
    → (t : LedgerTransaction) × (new_ledger_transaction now id
          (two_entries debit credit currency amount)
        ≡ ok t)
      × (t.currency ≡ currency)
two_entries_accepted now id debit credit currency amount i d c k u w a =
    let inputs = two_entries debit credit currency amount in
    let t : LedgerTransaction = record {
      transaction_id = trim_space id;
      currency = currency;
      created_at = now;
      entries = map (entry_of (trim_space id) now) inputs;
    } in
    let outgoing : eqb_ℤ (neg64 amount) (pos 0) ≡ false =
      negative_nonzero (neg64 amount) (neg64_negative amount w (ground arith)) in
    (
      t,
      new_ledger_transaction_of_IsTransactionOf now id inputs t (record {
        id_given = i;
        transaction_id = refl;
        created_at = refl;
        entries = refl;
        enough = refl;
        valid = (
          record {
            account_given = d;
            currency_given = k;
            currency_shared = u;
            amount_nonzero = outgoing;
          },
          (
            record {
              account_given = c;
              currency_given = k;
              currency_shared = u;
              amount_nonzero = ground arith;
            },
            tt,
          ),
        );
        balanced =
            ap (λ (x : ℤ). wrap64 (neg64 amount +ℤ x)) (omega int_laws) ∙ neg64_cancels amount;
      }),
      refl,
    )

-- A text that begins with `l` or with `p` is not blank.
clearing_given : (key : String) → (trim_space (ledger_clearing_account_id key) == "") ≡ false
unfolding ledger_clearing_account_id concat is_space
clearing_given key = trim_space-append_nonempty "l" "edger:clearing:" (lower_trimmed key ++ "") refl

succeeded_id_given :
    (b : PaymentSucceededBooking) → (trim_space (succeeded_transaction_id b) == "") ≡ false
unfolding succeeded_transaction_id concat is_space
succeeded_id_given b =
    trim_space-append_nonempty "p" "ayment:" (trim_space b.payment_id ++ (":succeeded" ++ "")) refl

-- What the constructor of a succeeded payment's booking has checked.
pub succeeded_checked :
    (input : PaymentSucceededBookingInput) (b : PaymentSucceededBooking)
    → new_payment_succeeded_booking input ≡ ok b
    → (b.debit_account_id ≡ ledger_clearing_account_id (lower_trimmed input.clearing_account_key))
      × (b.credit_account_id ≡ trim_space input.credit_account_id)
      × (b.currency ≡ upper_trimmed input.currency)
      × (b.amount ≡ input.amount)
      × ((b.credit_account_id == "") ≡ false)
      × ((b.currency == "") ≡ false)
      × (leb_ℤ b.amount (pos 0) ≡ false)
unfolding new_payment_succeeded_booking
succeeded_checked input b h = ground arith

reversal_id_given :
    (b : PaymentReversalBooking) → (trim_space (reversal_transaction_id b) == "") ≡ false
unfolding reversal_transaction_id concat is_space
reversal_id_given b = trim_space-append_nonempty "p" "ayment:" _ refl

pub reversal_checked :
    (input : PaymentReversalBookingInput) (b : PaymentReversalBooking)
    → new_payment_reversal_booking input ≡ ok b
    → (b.credit_account_id ≡ ledger_clearing_account_id (lower_trimmed input.clearing_account_key))
      × (b.debit_account_id ≡ trim_space input.credit_account_id)
      × (b.currency ≡ upper_trimmed input.currency)
      × (b.amount ≡ input.amount)
      × ((b.debit_account_id == "") ≡ false)
      × ((b.currency == "") ≡ false)
      × (leb_ℤ b.amount (pos 0) ≡ false)
unfolding new_payment_reversal_booking
reversal_checked input b h = ground arith

transfer_checked :
    (input b : TransferBooking)
    → new_transfer_booking input ≡ ok b
    → (b.from_account_id ≡ trim_space input.from_account_id)
      × (b.to_account_id ≡ trim_space input.to_account_id)
      × (b.currency ≡ upper_trimmed input.currency)
      × (b.amount ≡ input.amount)
      × ((b.from_account_id == "") ≡ false)
      × ((b.to_account_id == "") ≡ false)
      × ((b.currency == "") ≡ false)
      × (leb_ℤ b.amount (pos 0) ≡ false)
unfolding new_transfer_booking
transfer_checked input b h = ground arith

trimmed_given : (s t : String) → s ≡ trim_space t → (s == "") ≡ false → (trim_space s == "") ≡ false
trimmed_given s t e h = rw (e, trim_space_idem t) (rw e at h)

module _ (now : Time) where
  -- The entries of a succeeded payment's booking are accepted as a ledger transaction, in the
  -- booking's currency and under the identifier that the booking gives it.
  pub succeeded_booking_accepted :
      (input : PaymentSucceededBookingInput) (b : PaymentSucceededBooking)
      → IsInt64 input.amount
      → new_payment_succeeded_booking input ≡ ok b
      → (t : LedgerTransaction) × (new_ledger_transaction now
            (succeeded_transaction_id b)
            (succeeded_entries b)
          ≡ ok t)
        × (t.currency ≡ b.currency)
  unfolding succeeded_entries
  succeeded_booking_accepted input b w h =
      let (debit, credit, currency, amount, c, k, a) = succeeded_checked input b h in
      two_entries_accepted now (succeeded_transaction_id b) b.debit_account_id b.credit_account_id
        b.currency b.amount (succeeded_id_given b)
        (rw debit (clearing_given (lower_trimmed input.clearing_account_key)))
        (trimmed_given b.credit_account_id input.credit_account_id credit c) k
        (rw currency (upper_trimmed_idem input.currency)) (rw amount w) a

  -- So are the entries of a reversal's booking.
  pub reversal_booking_accepted :
      (input : PaymentReversalBookingInput) (b : PaymentReversalBooking)
      → IsInt64 input.amount
      → new_payment_reversal_booking input ≡ ok b
      → (t : LedgerTransaction) × (new_ledger_transaction now
            (reversal_transaction_id b)
            (reversal_entries b)
          ≡ ok t)
        × (t.currency ≡ b.currency)
  unfolding reversal_entries
  reversal_booking_accepted input b w h =
      let (credit, debit, currency, amount, c, k, a) = reversal_checked input b h in
      two_entries_accepted now (reversal_transaction_id b) b.debit_account_id b.credit_account_id
        b.currency b.amount (reversal_id_given b)
        (trimmed_given b.debit_account_id input.credit_account_id debit c)
        (rw credit (clearing_given (lower_trimmed input.clearing_account_key))) k
        (rw currency (upper_trimmed_idem input.currency)) (rw amount w) a

  -- The entries of a transfer's booking are accepted as a ledger transaction under any identifier
  -- that is not blank, in the booking's currency.
  pub transfer_booking_accepted :
      (id : String) (input b : TransferBooking)
      → (trim_space id == "") ≡ false
      → IsInt64 input.amount
      → new_transfer_booking input ≡ ok b
      → (t : LedgerTransaction) × (new_ledger_transaction now id (transfer_entries b) ≡ ok t)
        × (t.currency ≡ b.currency)
  unfolding transfer_entries
  transfer_booking_accepted id input b i w h =
      let (from, to, currency, amount, d, c, k, a) = transfer_checked input b h in
      two_entries_accepted now id b.from_account_id b.to_account_id b.currency b.amount i
        (trimmed_given b.from_account_id input.from_account_id from d)
        (trimmed_given b.to_account_id input.to_account_id to c) k
        (rw currency (upper_trimmed_idem input.currency)) (rw amount w) a

-- What entries move on one account in one currency, in the integers.
abbrev pub moved : String → String → List LedgerEntryInput → ℤ
moved id currency [] = pos 0
moved id currency (e ∷ rest) =
    let others = moved id currency rest in
    if e.account_id == id && e.currency == currency then e.amount +ℤ others else others

double_zero : wrap64 (pos 0 +ℤ pos 0) ≡ pos 0
unfolding wrap64 ◌+ℤ◌
double_zero = refl

swap_cancels :
    (m : ℤ) (s t : Bool)
    → wrap64 (
        (if s
          then neg64 m +ℤ (if t then m +ℤ pos 0 else pos 0)
          else (if t then m +ℤ pos 0 else pos 0))
        +ℤ (if t
            then neg64 m +ℤ (if s then m +ℤ pos 0 else pos 0)
            else (if s then m +ℤ pos 0 else pos 0)))
      ≡ pos 0
swap_cancels m true true =
    ap wrap64 {x = _} {y = (neg64 m +ℤ m) +ℤ (neg64 m +ℤ m)} (omega int_laws)
    ∙ sym (wrap64-add_both (neg64 m +ℤ m) (neg64 m +ℤ m))
    ∙ rw (neg64_cancels m) double_zero
swap_cancels m true false = ap wrap64 (omega int_laws) ∙ neg64_cancels m
swap_cancels m false true = ap wrap64 (omega int_laws) ∙ neg64_cancels m
swap_cancels m false false = double_zero

-- The booking of a reversal undoes that of the payment: where the two were made for the same
-- account, clearing key, currency and amount, their entries together move nothing, modulo 2^64, on
-- any account in any currency.
pub reversal_undoes :
    (paid : PaymentSucceededBookingInput) (back : PaymentReversalBookingInput)
    (b : PaymentSucceededBooking) (r : PaymentReversalBooking) (id currency : String)
    → lower_trimmed paid.clearing_account_key ≡ lower_trimmed back.clearing_account_key
    → trim_space paid.credit_account_id ≡ trim_space back.credit_account_id
    → upper_trimmed paid.currency ≡ upper_trimmed back.currency
    → paid.amount ≡ back.amount
    → new_payment_succeeded_booking paid ≡ ok b
    → new_payment_reversal_booking back ≡ ok r
    → wrap64 (moved id currency (succeeded_entries b) +ℤ moved id currency (reversal_entries r))
      ≡ pos 0
unfolding succeeded_entries reversal_entries
reversal_undoes paid back b r id currency key account same amount h g =
    let (debit, credit, c, a, _, _, _) = succeeded_checked paid b h in
    let (credit', debit', c', a', _, _, _) = reversal_checked back r g in
    let here = upper_trimmed back.currency == currency in
    rw (debit, credit, c, credit', debit', c', a, a', key, account, same, amount)
      (swap_cancels back.amount
        (ledger_clearing_account_id (lower_trimmed back.clearing_account_key) == id && here)
        (trim_space back.credit_account_id == id && here))
