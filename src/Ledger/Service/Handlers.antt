-- ===== src/Ledger/Service/Handlers.antt =====
-- core/modules/ledger/application/service/payment_event_service.go: the service's events carry what
-- the payment's event means.
use wechat_clone.Base.{
  ◌≡◌, refl, ◌∙◌, inl, inr, String, Bool, true, false, not, ◌&&◌, List, [], ◌∷◌, ◌++◌, ◌==◌, eq_iff,
  append-nil, arith, Bool-cases,
}
use wechat_clone.Base.Int.{ℤ, pos, ◌≤ℤ◌, IsInt64, ltb_ℤ, leb_ℤ}
use wechat_clone.Base.Text.{trim_space, trim_space_idem, concat, first_non_empty, is_space}
use wechat_clone.Base.Text.Append.{trim_space-concat}
use wechat_clone.Base.Text.Case.{
  lower_trimmed, upper_trimmed_idem, lower_trimmed_idem, trim_space-lower_trimmed,
}
use wechat_clone.Base.Time.{Time}
use wechat_clone.Base.Results.{Result, ok, ◌>>=◌, chain-Passed, map_err_ok}
use wechat_clone.Event.{Event}
use wechat_clone.Ledger.Posting.{
  LedgerEvent, PaymentKind, kind_name, deposit_from_intent, withdraw_from_intent,
  deposit_from_refund, withdraw_from_refund, deposit_from_chargeback, withdraw_from_chargeback,
  reserve_withdrawal, receive_withdrawal_hold, release_withdrawal, withdraw_released_hold,
}
use wechat_clone.Ledger.Events.{payment_refunded, payment_chargeback}
use wechat_clone.Ledger.Events.RoundTrip.{is_debit}
use wechat_clone.Ledger.Booking.{
  PaymentReversalBooking, PaymentReversalBookingInput, ledger_clearing_account_id,
  normalize_payment_booking_type, new_payment_reversal_booking,
}
use wechat_clone.Ledger.Booking.Entries.{succeeded_checked, reversal_checked}
use wechat_clone.Payment.Intent.{
  normalize_payment_workflow, withdrawal, provider_clearing_account_key,
}
use wechat_clone.Payment.Events.{PaymentOutcome, WithdrawalRequested}
use wechat_clone.Ledger.Service.{
  ServiceError, booking_rejected, Transfer, PaymentEventService, new_payment_event_service,
  debit_event_name_for_reversal, credit_event_name_for_reversal, with_fee, debit_first_events,
  credit_first_events, events_from_booking, requested_principal, requested_fee,
  withdrawal_requested_events, failed_principal, failed_fee, payment_failed_events,
  succeeded_principal, succeeded_fee, succeeded_input, payment_succeeded_events, reversed_principal,
  reversed_fee, reversal_input, payment_reversed_events, Delivery, requested, succeeded, failed,
  refunded, charged_back, ledger_events,
}
use wechat_clone.Ledger.Service.Moves.{Move, Carry, nothing, Carry-append}
use wechat_clone.Ledger.Service.Meaning.{fee_move, reversed, meaning, IsSound}
use wechat_clone.Ledger.Service.Pairs.{
  move_of, IsTransfer, debit_first_events-Carry, credit_first_events-Carry,
  events_from_booking-Carry,
}

-- An identifier of a clearing account has no spaces around it.
clearing_trimmed :
    (key : String) → trim_space (ledger_clearing_account_id key) ≡ ledger_clearing_account_id key
unfolding ledger_clearing_account_id
clearing_trimmed key = elim (Bool-cases (lower_trimmed key == "")) [
  | inl e ↦
      let blank = (eq_iff (lower_trimmed key) "").0 e in
      rw blank (unfold trim_space concat is_space in refl)
  | inr e ↦
      trim_space-concat "l" "edger:clearing:" (lower_trimmed key) (unfold is_space in refl)
        (trim_space-lower_trimmed key) e
]

clearing_lower :
    (key : String) → ledger_clearing_account_id (lower_trimmed key) ≡ ledger_clearing_account_id key
unfolding ledger_clearing_account_id
clearing_lower key = rw (lower_trimmed_idem key) refl

positive_of_gt : (m : ℤ) → ltb_ℤ (pos 0) m ≡ true → pos 1 ≤ℤ m
positive_of_gt m h = ground arith

positive_of_not_le : (m : ℤ) → leb_ℤ m (pos 0) ≡ false → pos 1 ≤ℤ m
positive_of_not_le m h = ground arith

-- A transfer under the names of two kinds of events.
under :
    (debit_kind credit_kind : PaymentKind) (t : Transfer)
    → is_debit debit_kind ≡ true
    → is_debit credit_kind ≡ false
    → t.debit_event_name ≡ kind_name debit_kind
    → t.credit_event_name ≡ kind_name credit_kind
    → pos 1 ≤ℤ t.amount
    → IsInt64 t.amount
    → IsTransfer t
under debit_kind credit_kind t debits credits debit_named credit_named positive int64 = record {
  debit_kind = debit_kind;
  credit_kind = credit_kind;
  debit_named = debit_named;
  credit_named = credit_named;
  debits = debits;
  credits = credits;
  positive = positive;
  int64 = int64;
}

and_left : (a b : Bool) → (a && b) ≡ true → a ≡ true
and_left true b h = refl
and_left false b h = cc

module _ (s : PaymentEventService) where
  with_fee-Carry :
      (fee : ℤ) (r : Result ServiceError (List (Event LedgerEvent)))
      (es out : List (Event LedgerEvent)) (ms : List Move) (m : Move)
      → Carry es ms
      → (ltb_ℤ (pos 0) fee ≡ true
          → (more : List (Event LedgerEvent)) → r ≡ ok more
          → Carry more (m ∷ []))
      → with_fee s fee r es ≡ ok out
      → Carry out (ms ++ fee_move s.fee_account_id fee m)
  unfolding with_fee
  with_fee-Carry fee r es out ms m carry pair h =
      elim (Bool-cases (ltb_ℤ (pos 0) fee && not (s.fee_account_id == ""))) [
        | inl e ↦
            let more = chain-Passed r _ (rw e at h) in
            let same : out ≡ es ++ more.value = cc more.rest in
            rw (e, same) (Carry-append carry (pair (and_left _ _ e) more.value more.first))
        | inr e ↦
            let here = rw e at h in
            let same : out ≡ es = cc here in rw (e, same, append-nil ms) carry
      ]

  -- A movement of a transfer and that of its fee.
  both-Carry :
      (events : Transfer → Result ServiceError (List (Event LedgerEvent)))
      (principal fee_transfer : Transfer) (fee : ℤ) (out : List (Event LedgerEvent))
      → ((t : Transfer)
          → IsTransfer t
          → (es : List (Event LedgerEvent)) → events t ≡ ok es
          → Carry es (move_of t ∷ []))
      → IsTransfer principal
      → (ltb_ℤ (pos 0) fee ≡ true → IsTransfer fee_transfer)
      → (events principal >>= with_fee s fee (events fee_transfer)) ≡ ok out
      → Carry out (move_of principal ∷ fee_move s.fee_account_id fee (move_of fee_transfer))
  both-Carry events principal fee_transfer fee out carry w wf h =
      let first = chain-Passed (events principal) _ h in
      with_fee-Carry fee (events fee_transfer) first.value out (move_of principal ∷ [])
        (move_of fee_transfer) (carry principal w first.value first.first)
        (λ positive more made. carry fee_transfer (wf positive) more made) first.rest

-- A name of a reversal, for which both events are known.
record IsReversal (name : String) : Type 0 where
  debit_kind : PaymentKind
  credit_kind : PaymentKind
  debit_named : debit_event_name_for_reversal name ≡ kind_name debit_kind
  credit_named : credit_event_name_for_reversal name ≡ kind_name credit_kind
  debits : is_debit debit_kind ≡ true
  credits : is_debit credit_kind ≡ false
  settled : normalize_payment_booking_type name ≡ name

refund-IsReversal : IsReversal payment_refunded
unfolding debit_event_name_for_reversal credit_event_name_for_reversal
    normalize_payment_booking_type trim_space is_space
refund-IsReversal = record {
  debit_kind = withdraw_from_refund;
  credit_kind = deposit_from_refund;
  debit_named = refl;
  credit_named = refl;
  debits = refl;
  credits = refl;
  settled = refl;
}

chargeback-IsReversal : IsReversal payment_chargeback
unfolding debit_event_name_for_reversal credit_event_name_for_reversal
    normalize_payment_booking_type trim_space is_space
chargeback-IsReversal = record {
  debit_kind = withdraw_from_chargeback;
  credit_kind = deposit_from_chargeback;
  debit_named = refl;
  credit_named = refl;
  debits = refl;
  credits = refl;
  settled = refl;
}

reversal_type_checked :
    (input : PaymentReversalBookingInput) (b : PaymentReversalBooking)
    → new_payment_reversal_booking input ≡ ok b
    → b.reversal_type ≡ normalize_payment_booking_type input.reversal_type
unfolding new_payment_reversal_booking
reversal_type_checked input b h = ground arith

module _ (fee_account : String) (now : Time) where
  abbrev service : PaymentEventService
  service = record { fee_account_id = trim_space fee_account }

  requested-Carry :
      (p : WithdrawalRequested) (es : List (Event LedgerEvent))
      → IsSound (requested p)
      → withdrawal_requested_events service now p ≡ ok es
      → Carry es (meaning (trim_space fee_account) (requested p))
  unfolding withdrawal_requested_events
  requested-Carry p es (positive, wide, fee_wide) h =
      let carry =
        both-Carry service debit_first_events (requested_principal service now p)
          (requested_fee service now p) p.fee_amount es debit_first_events-Carry
          (under reserve_withdrawal receive_withdrawal_hold _ refl refl refl refl positive wide)
          (λ fee.
            under reserve_withdrawal receive_withdrawal_hold _ refl refl refl refl
              (positive_of_gt p.fee_amount fee) fee_wide)
          h in
      rw
        (
          trim_space_idem p.debit_account_id,
          clearing_trimmed (
              first_non_empty (
                trim_space p.clearing_account_key ∷ provider_clearing_account_key p.provider ∷ [])),
          trim_space_idem fee_account,
        )
        at carry

  failed-Carry :
      (p : PaymentOutcome) (es : List (Event LedgerEvent))
      → IsSound (failed p)
      → payment_failed_events service now p ≡ ok es
      → Carry es (meaning (trim_space fee_account) (failed p))
  unfolding payment_failed_events
  failed-Carry p es (positive, wide, fee_wide) h =
      elim (Bool-cases (not (normalize_payment_workflow p.workflow == withdrawal))) [
        | inl e ↦ let none_made : es ≡ [] = cc (rw e at h) in rw (e, none_made) nothing
        | inr e ↦
            let carry =
              both-Carry service credit_first_events (failed_principal service now p)
                (failed_fee service now p) p.fee_amount es credit_first_events-Carry
                (under withdraw_released_hold release_withdrawal _ refl refl refl refl positive
                  wide)
                (λ fee.
                  under withdraw_released_hold release_withdrawal _ refl refl refl refl
                    (positive_of_gt p.fee_amount fee) fee_wide)
                (rw e at h) in
            rw e (
              rw
                (
                  trim_space_idem p.debit_account_id,
                  clearing_trimmed p.clearing_account_key,
                  trim_space_idem fee_account,
                )
                at carry)
      ]

  succeeded-Carry :
      (p : PaymentOutcome) (es : List (Event LedgerEvent))
      → IsSound (succeeded p)
      → payment_succeeded_events service now p ≡ ok es
      → Carry es (meaning (trim_space fee_account) (succeeded p))
  unfolding payment_succeeded_events
  succeeded-Carry p es (wide, fee_wide) h =
      elim (Bool-cases (normalize_payment_workflow p.workflow == withdrawal)) [
        | inl e ↦ let none_made : es ≡ [] = cc (rw e at h) in rw (e, none_made) nothing
        | inr e ↦
            let made = chain-Passed _ _ (rw e at h) in
            let b = made.value in
            let (debit, credit, currency, amount, _, _, a) =
              succeeded_checked (succeeded_input service now p) b
                (map_err_ok booking_rejected _ b made.first) in
            let carry =
              both-Carry service (events_from_booking now) (succeeded_principal service now b p.at)
                (succeeded_fee service now b p) p.fee_amount es (events_from_booking-Carry now)
                (under withdraw_from_intent deposit_from_intent _ refl refl refl refl
                  (positive_of_not_le b.amount a) (rw amount wide))
                (λ fee.
                  under withdraw_from_intent deposit_from_intent _ refl refl refl refl
                    (positive_of_gt p.fee_amount fee) fee_wide)
                made.rest in
            rw e (
              rw
                (
                  debit,
                  credit,
                  currency,
                  amount,
                  clearing_lower p.clearing_account_key,
                  trim_space_idem p.credit_account_id,
                  clearing_trimmed p.clearing_account_key,
                  upper_trimmed_idem p.currency,
                  trim_space_idem fee_account,
                )
                at carry)
      ]

  reversed-Carry :
      (name : String) (p : PaymentOutcome) (es : List (Event LedgerEvent))
      → IsReversal name
      → IsInt64 p.amount × IsInt64 p.fee_amount
      → payment_reversed_events service now name p ≡ ok es
      → Carry es (reversed (trim_space fee_account) p)
  unfolding payment_reversed_events
  reversed-Carry name p es r (wide, fee_wide) h =
      let made = chain-Passed _ _ h in
      let b = made.value in
      let passed = map_err_ok booking_rejected _ b made.first in
      let input = reversal_input service now name p in
      let (credit, debit, currency, amount, _, _, a) = reversal_checked input b passed in
      let kind : b.reversal_type ≡ name = reversal_type_checked input b passed ∙ r.settled in
      let carry =
        both-Carry service (events_from_booking now) (reversed_principal service now b p.at)
          (reversed_fee service now name b p) p.fee_amount es (events_from_booking-Carry now)
          (under r.debit_kind r.credit_kind _ r.debits r.credits (rw kind r.debit_named)
            (rw kind r.credit_named) (positive_of_not_le b.amount a) (rw amount wide))
          (λ fee.
            under r.debit_kind r.credit_kind _ r.debits r.credits r.debit_named r.credit_named
              (positive_of_gt p.fee_amount fee) fee_wide)
          made.rest in
      rw
        (
          debit,
          credit,
          currency,
          amount,
          clearing_lower p.clearing_account_key,
          trim_space_idem p.credit_account_id,
          clearing_trimmed p.clearing_account_key,
          upper_trimmed_idem p.currency,
          trim_space_idem fee_account,
        )
        at carry

-- Where a method of the service makes its ledger events, from amounts of int64 and a withdrawal's
-- positive, they carry the money that the payment's event means to move: each move by two events,
-- which are addressed to the two accounts, name each other as the counterparty, and share
-- transaction, reference and currency; what one takes from its account the other brings to its own.
pub ledger_events-Carry :
    (fee_account : String) (now : Time) (d : Delivery) (es : List (Event LedgerEvent))
    → IsSound d
    → ledger_events (new_payment_event_service fee_account) now d ≡ ok es
    → Carry es (meaning (trim_space fee_account) d)
unfolding ledger_events new_payment_event_service
ledger_events-Carry fee_account now (requested p) es w h = requested-Carry fee_account now p es w h
ledger_events-Carry fee_account now (succeeded p) es w h = succeeded-Carry fee_account now p es w h
ledger_events-Carry fee_account now (failed p) es w h = failed-Carry fee_account now p es w h
ledger_events-Carry fee_account now (refunded p) es w h =
    reversed-Carry fee_account now payment_refunded p es refund-IsReversal w h
ledger_events-Carry fee_account now (charged_back p) es w h =
    reversed-Carry fee_account now payment_chargeback p es chargeback-IsReversal w h
