-- ===== src/Ledger/Service/Undo.antt =====
-- core/modules/ledger/application/service/payment_event_service.go: the events of the service
-- create no money, and the failure of a withdrawal and the reversal of a top-up undo what was
-- recorded before.
use wechat_clone.Base.{
  ◌≡◌, ◌∙◌, String, Bool, true, false, not, ◌&&◌, List, [], ◌∷◌, ◌==◌, if◌then◌else◌,
}
use wechat_clone.Base.Int.{ℤ, pos, ◌+ℤ◌, neg_ℤ, int_laws, ltb_ℤ}
use wechat_clone.Base.Text.{trim_space}
use wechat_clone.Base.Text.Case.{upper_trimmed}
use wechat_clone.Base.Time.{Time}
use wechat_clone.Base.Results.{ok}
use wechat_clone.Event.{Event}
use wechat_clone.Ledger.Posting.{LedgerEvent}
use wechat_clone.Ledger.Booking.{ledger_clearing_account_id}
use wechat_clone.Payment.Intent.{normalize_payment_workflow, withdrawal}
use wechat_clone.Payment.Events.{PaymentOutcome, WithdrawalRequested}
use wechat_clone.Ledger.Service.{
  Delivery, requested, succeeded, failed, refunded, charged_back, new_payment_event_service,
  ledger_events,
}
use wechat_clone.Ledger.Service.Moves.{effect, effect-eq-net, net, net_of_move}
use wechat_clone.Ledger.Service.Meaning.{
  move, fee_move, requested_clearing, meaning, reversed, IsSound,
}
use wechat_clone.Ledger.Service.Handlers.{ledger_events-Carry}

-- The failure `q` is that of the withdrawal `p`.
pub record IsFailureOf (p : WithdrawalRequested) (q : PaymentOutcome) : Type 0 where
  pub workflow : normalize_payment_workflow q.workflow ≡ withdrawal
  pub account : trim_space q.debit_account_id ≡ trim_space p.debit_account_id
  pub clearing : ledger_clearing_account_id q.clearing_account_key ≡ requested_clearing p
  pub currency : upper_trimmed q.currency ≡ upper_trimmed p.currency
  pub amount : q.amount ≡ p.amount
  pub fee : q.fee_amount ≡ p.fee_amount

-- The reversal `q` is that of the top-up `p`.
pub record IsReversalOf (p q : PaymentOutcome) : Type 0 where
  pub workflow : (normalize_payment_workflow p.workflow == withdrawal) ≡ false
  pub account : trim_space q.credit_account_id ≡ trim_space p.credit_account_id
  pub clearing :
      ledger_clearing_account_id q.clearing_account_key
      ≡ ledger_clearing_account_id p.clearing_account_key
  pub currency : upper_trimmed q.currency ≡ upper_trimmed p.currency
  pub amount : q.amount ≡ p.amount
  pub fee : q.fee_amount ≡ p.fee_amount

-- The event `d'` of a payment takes back what the event `d` did.
pub data Undoes : Delivery → Delivery → Type 0 where
  failure :
      (p : WithdrawalRequested) (q : PaymentOutcome)
      → IsFailureOf p q
      → Undoes (requested p) (failed q)
  refund : (p q : PaymentOutcome) → IsReversalOf p q → Undoes (succeeded p) (refunded q)
  chargeback : (p q : PaymentOutcome) → IsReversalOf p q → Undoes (succeeded p) (charged_back q)

regroup : (x y x' y' : ℤ) → (x +ℤ y) +ℤ (x' +ℤ y') ≡ (x +ℤ x') +ℤ (y +ℤ y')
regroup x y x' y' = omega int_laws

sum_of_two : (x y x' y' : ℤ) → x +ℤ x' ≡ pos 0 → y +ℤ y' ≡ pos 0 → (x +ℤ y) +ℤ (x' +ℤ y') ≡ pos 0
sum_of_two x y x' y' h k = regroup x y x' y' ∙ rw (h, k) (omega int_laws)

module _ (id c : String) where
  there_and_back :
      (a b currency : String) (m : ℤ)
      → net_of_move id c (move a b currency m) +ℤ net_of_move id c (move b a currency m) ≡ pos 0
  there_and_back a b currency m =
      cancels (a == id && upper_trimmed currency == c) (b == id && upper_trimmed currency == c)
    where
      cancels :
          (s t : Bool)
          → ((if s then neg_ℤ m else pos 0) +ℤ (if t then m else pos 0))
              +ℤ ((if t then neg_ℤ m else pos 0) +ℤ (if s then m else pos 0))
            ≡ pos 0
      cancels true true = omega int_laws
      cancels true false = omega int_laws
      cancels false true = omega int_laws
      cancels false false = omega int_laws

  fee_there_and_back :
      (account a b currency : String) (fee : ℤ)
      → net id c (fee_move account fee (move a b currency fee))
          +ℤ net id c (fee_move account fee (move b a currency fee))
        ≡ pos 0
  fee_there_and_back account a b currency fee = charged (ltb_ℤ (pos 0) fee && not (account == ""))
    where
      charged :
          (t : Bool)
          → net id c (if t then move a b currency fee ∷ [] else [])
              +ℤ net id c (if t then move b a currency fee ∷ [] else [])
            ≡ pos 0
      charged true =
          sum_of_two _ (pos 0) _ (pos 0) (there_and_back a b currency fee) (omega int_laws)
      charged false = omega int_laws

  reversal_cancels :
      (fee_account : String) (p q : PaymentOutcome)
      → IsReversalOf p q
      → net id c (meaning fee_account (succeeded p)) +ℤ net id c (reversed fee_account q) ≡ pos 0
  reversal_cancels fee_account p q u =
      rw (u.workflow, u.account, u.clearing, u.currency, u.amount, u.fee)
        (sum_of_two _ _ _ _
          (there_and_back (ledger_clearing_account_id p.clearing_account_key)
            (trim_space p.credit_account_id) p.currency p.amount)
          (fee_there_and_back fee_account (ledger_clearing_account_id p.clearing_account_key)
            fee_account p.currency p.fee_amount))

  failure_cancels :
      (fee_account : String) (p : WithdrawalRequested) (q : PaymentOutcome)
      → IsFailureOf p q
      → net id c (meaning fee_account (requested p)) +ℤ net id c (meaning fee_account (failed q))
        ≡ pos 0
  failure_cancels fee_account p q u =
      rw (u.workflow, u.account, u.clearing, u.currency, u.amount, u.fee)
        (sum_of_two _ _ _ _
          (there_and_back (trim_space p.debit_account_id) (requested_clearing p) p.currency
            p.amount)
          (fee_there_and_back fee_account (trim_space p.debit_account_id) fee_account p.currency
            p.fee_amount))

  meaning_cancels :
      (fee_account : String) (d d' : Delivery)
      → Undoes d d'
      → net id c (meaning fee_account d) +ℤ net id c (meaning fee_account d') ≡ pos 0
  meaning_cancels fee_account _ _ (failure p q u) = failure_cancels fee_account p q u
  meaning_cancels fee_account _ _ (refund p q u) = reversal_cancels fee_account p q u
  meaning_cancels fee_account _ _ (chargeback p q u) = reversal_cancels fee_account p q u

  -- The ledger events of a withdrawal's failure undo those of its request, and the events of the
  -- refund or the chargeback of a top-up undo those of its success: where both are made, from amounts
  -- of int64 and a withdrawal's positive, and name the same account, clearing account, currency,
  -- amount and fee, then together they bring nothing to any account in any currency, the account for
  -- fees included.
  pub ledger_events_cancel :
      (fee_account : String) (now now' : Time) (d d' : Delivery) (es es' : List (Event LedgerEvent))
      → IsSound d
      → IsSound d'
      → Undoes d d'
      → ledger_events (new_payment_event_service fee_account) now d ≡ ok es
      → ledger_events (new_payment_event_service fee_account) now' d' ≡ ok es'
      → effect id c es +ℤ effect id c es' ≡ pos 0
  ledger_events_cancel fee_account now now' d d' es es' w w' u h h' =
      rw
        (
          effect-eq-net id c (ledger_events-Carry fee_account now d es w h),
          effect-eq-net id c (ledger_events-Carry fee_account now' d' es' w' h'),
        )
        (meaning_cancels (trim_space fee_account) d d' u)
