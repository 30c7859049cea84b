-- ===== src/Ledger/Account.antt =====
-- core/modules/ledger/domain/aggregate/ledger_account_aggregate.go: the event-sourced ledger
-- account. A method returns the new aggregate with its results. The receiver is never nil here.
pub mod Posting
pub mod Commands
pub mod Shape
pub mod Settles
pub mod Balance
pub mod Transfer
pub mod History
pub mod Retry
pub mod Log
use wechat_clone.Base.{
  String, Bool, true, false, not, ◌&&◌, Option, none, some, [], ◌==◌, if◌then◌else◌,
}
use wechat_clone.Base.Int.{ℤ, pos, ltb_ℤ, leb_ℤ, add64}
use wechat_clone.Base.Text.{trim_space}
use wechat_clone.Base.Text.Case.{upper_trimmed}
use wechat_clone.Base.Time.{Time}
use wechat_clone.Base.Maps.{Map, lookup, insert, get_or}
use wechat_clone.Base.Results.{Result, ok, err}
use wechat_clone.Event.{
  Event, Aggregate, zero_root, init_aggregate, apply_change, unsupported_event_type,
}
use wechat_clone.Ledger.Posting.{
  LedgerError, root_error, account_id_mismatch, reference_type_invalid, insufficient_funds,
  posting_mismatch, payment_booking_mismatch, transfer_mismatch, transfer_receive_mismatch,
  event_unsupported, LedgerAccountPosting, TransferEventData, LedgerEvent, payment_event,
  transferred_to_account, received_transfer, other_event, normalize_ledger_account_posting,
  new_payment_posting, new_transfer_out_posting, new_transfer_in_posting, event_data,
  requires_non_negative_balance,
}
use wechat_clone.Ledger.Events.{
  event_name, preview_posting_from_event, new_ledger_payment_event,
  reference_type_for_succeeded_amount, reference_type_for_reversal, payment_refunded,
  payment_chargeback, same_posting,
}

-- The aggregate's own fields. `ensureState` makes the maps where they are nil: a nil map and an
-- empty one are both `[]`.
pub record LedgerAccountState : Type 0 where
  pub account_id : String
  pub balances : Map ℤ
  pub posted_transactions : Map LedgerAccountPosting

abbrev pub LedgerAccountAggregate : Type 0
LedgerAccountAggregate = Aggregate LedgerEvent LedgerAccountState

abbrev pub empty_state : LedgerAccountState
empty_state = record { account_id = ""; balances = []; posted_transactions = [] }

-- `NewLedgerAccountAggregate`
unfoldable pub new_ledger_account : String → Result LedgerError LedgerAccountAggregate
new_ledger_account id = elim (init_aggregate zero_root "LedgerAccountAggregate" id) [
  | err e ↦ err (root_error e)
  | ok root ↦ ok (record { root = root; state = empty_state })
]

-- `Balance`
unfoldable pub balance : LedgerAccountState → String → ℤ
balance s currency = get_or (pos 0) (upper_trimmed currency) s.balances

-- `lookupPendingPosting`, and `PostedTransaction`, which does the same
unfoldable pub lookup_pending_posting : LedgerAccountState → String → Option LedgerAccountPosting
lookup_pending_posting s transaction_id =
    if trim_space transaction_id == ""
    then none
    else lookup (trim_space transaction_id) s.posted_transactions

-- `ensurePostingAllowed`
unfoldable pub ensure_posting_allowed :
    LedgerAccountState → LedgerAccountPosting → Option LedgerError
ensure_posting_allowed s p =
    if leb_ℤ (pos 0) p.amount_delta
    then none
    else if not (requires_non_negative_balance p.reference_type)
    then none
    else if ltb_ℤ (add64 (balance s p.currency) p.amount_delta) (pos 0)
    then some insufficient_funds
    else none

-- The writes at the end of `applyPosting`.
unfoldable pub post : LedgerAccountState → String → LedgerAccountPosting → LedgerAccountState
post s id p = record {
  account_id = id;
  balances =
      insert p.currency (add64 (get_or (pos 0) p.currency s.balances) p.amount_delta) s.balances;
  posted_transactions = insert p.transaction_id p s.posted_transactions;
}

unfoldable pub apply_normalized :
    LedgerAccountState → String → LedgerAccountPosting → LedgerAccountState × Option LedgerError
unfolding ensure_posting_allowed post
apply_normalized s id p = elim (ensure_posting_allowed s p) [
  | some e ↦ (s, some e)
  | none ↦
      if not (s.account_id == "") && not (s.account_id == id)
      then (s, some account_id_mismatch)
      else (post s id p, none)
]

-- `applyPosting`
unfoldable pub apply_posting :
    LedgerAccountState → String → LedgerAccountPosting → LedgerAccountState × Option LedgerError
unfolding apply_normalized
apply_posting s id p = elim (normalize_ledger_account_posting id p) [
  | err e ↦ (s, some e)
  | ok (id', p') ↦ apply_normalized s id' p'
]

unfoldable pub apply_result :
    LedgerAccountState
    → String
    → Result LedgerError LedgerAccountPosting
    → LedgerAccountState × Option LedgerError
unfolding apply_posting
apply_result s id (err e) = (s, some e)
apply_result s id (ok p) = apply_posting s id p

-- `applyEventPosting`
unfoldable pub apply_event_posting :
    LedgerAccountState → String → LedgerEvent → LedgerAccountState × Option LedgerError
unfolding apply_posting
apply_event_posting s id e = elim (preview_posting_from_event id e) [
  | err x ↦ (s, some x)
  | ok none ↦ (s, some event_unsupported)
  | ok (some p) ↦ apply_posting s id p
]

-- The switch of `Transition`, on the event's data.
unfoldable pub transition_data :
    LedgerAccountState → String → LedgerEvent → LedgerAccountState × Option LedgerError
unfolding apply_event_posting apply_result
transition_data s id (payment_event k payload) = apply_event_posting s id (payment_event k payload)
transition_data s id (transferred_to_account payload) =
    apply_result s id (new_transfer_out_posting id payload)
transition_data s id (received_transfer payload) =
    apply_result s id (new_transfer_in_posting id payload)
transition_data s id (other_event _) = (s, some (root_error unsupported_event_type))

-- `Transition`
unfoldable pub transition :
    LedgerAccountState → Event LedgerEvent → LedgerAccountState × Option LedgerError
unfolding transition_data
transition s e = transition_data s e.aggregate_id e.event_data

-- `ApplyChange` on the account.
unfoldable pub change_account :
    LedgerAccountAggregate → Option LedgerEvent → LedgerAccountAggregate × Option LedgerError
change_account = apply_change transition root_error event_name

-- How each command ends: what is posted already is not posted again, a command that differs from
-- what was posted under its transaction is an error, and so is one that the funds do not cover.
unfoldable pub record_posting :
    LedgerAccountAggregate
    → LedgerAccountPosting
    → LedgerError
    → Option LedgerEvent
    → LedgerAccountAggregate × Result LedgerError Bool
record_posting a p mismatch change = elim (lookup_pending_posting a.state p.transaction_id) [
  | some existing ↦ (a, if same_posting existing p then ok false else err mismatch)
  | none ↦ elim (ensure_posting_allowed a.state p) [
    | some e ↦ (a, err e)
    | none ↦
        let (b, error) = change_account a change in
        (b, elim error [ some e ↦ err e | none ↦ ok true ])
  ]
]

-- `ApplyPostingEvent`
unfoldable pub apply_posting_event :
    LedgerAccountAggregate → LedgerEvent → LedgerAccountAggregate × Result LedgerError Bool
unfolding record_posting
apply_posting_event a e = elim (preview_posting_from_event a.root.aggregate_id e) [
  | err x ↦ (a, err x)
  | ok none ↦ (a, err (root_error unsupported_event_type))
  | ok (some p) ↦ record_posting a p posting_mismatch (some e)
]

-- `bookPaymentPosting`
unfoldable pub book_payment_posting :
    LedgerAccountAggregate → LedgerAccountPosting → LedgerAccountAggregate × Result LedgerError Bool
unfolding record_posting
book_payment_posting a input = elim (new_payment_posting a.root.aggregate_id input) [
  | err x ↦ (a, err x)
  | ok p ↦ record_posting a p payment_booking_mismatch (new_ledger_payment_event p)
]

module _ (a : LedgerAccountAggregate) where
  -- `BookPayment`
  unfoldable pub book_payment :
      String
      → String
      → String
      → String
      → ℤ
      → Time
      → LedgerAccountAggregate × Result LedgerError Bool
  unfolding book_payment_posting
  book_payment transaction_id payment_id counterparty currency delta booked_at =
      book_payment_posting a (record {
        transaction_id = transaction_id;
        reference_type = reference_type_for_succeeded_amount delta;
        reference_id = payment_id;
        counterparty_account_id = counterparty;
        currency = currency;
        amount_delta = delta;
        booked_at = booked_at;
      })

  -- `ReversePayment`
  unfoldable pub reverse_payment :
      String
      → String
      → String
      → String
      → String
      → ℤ
      → Time
      → LedgerAccountAggregate × Result LedgerError Bool
  unfolding book_payment_posting
  reverse_payment transaction_id reference_type payment_id counterparty currency delta booked_at =
      let reference_type' = trim_space reference_type in
      if not (reference_type' == payment_refunded) && not (reference_type' == payment_chargeback)
      then (a, err reference_type_invalid)
      else book_payment_posting a (record {
        transaction_id = transaction_id;
        reference_type = reference_type_for_reversal reference_type' delta;
        reference_id = payment_id;
        counterparty_account_id = counterparty;
        currency = currency;
        amount_delta = delta;
        booked_at = booked_at;
      })

  -- `TransferToAccount`: the event carries the normalised fields and the amount as it was given.
  unfoldable pub transfer_to_account :
      TransferEventData → LedgerAccountAggregate × Result LedgerError Bool
  unfolding record_posting
  transfer_to_account input = elim (new_transfer_out_posting a.root.aggregate_id input) [
    | err x ↦ (a, err x)
    | ok p ↦
        record_posting a p transfer_mismatch (some (transferred_to_account (event_data input p)))
  ]

  -- `ReceiveTransfer`
  unfoldable pub receive_transfer :
      TransferEventData → LedgerAccountAggregate × Result LedgerError Bool
  unfolding record_posting
  receive_transfer input = elim (new_transfer_in_posting a.root.aggregate_id input) [
    | err x ↦ (a, err x)
    | ok p ↦
        record_posting a p transfer_receive_mismatch (some (received_transfer (event_data input p)))
  ]
