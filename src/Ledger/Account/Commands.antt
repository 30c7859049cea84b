-- ===== src/Ledger/Account/Commands.antt =====
-- core/modules/ledger/domain/aggregate/ledger_account_aggregate.go: the five commands of a ledger
-- account as one type, for statements about all of them.
use wechat_clone.Base.{String, Bool}
use wechat_clone.Base.Int.{ℤ, IsInt64}
use wechat_clone.Base.Time.{Time}
use wechat_clone.Base.Results.{Result}
use wechat_clone.Ledger.Posting.{LedgerError, TransferEventData, LedgerEvent}
use wechat_clone.Ledger.Account.{
  LedgerAccountAggregate, apply_posting_event, book_payment, reverse_payment, transfer_to_account,
  receive_transfer,
}

pub data Command : Type 0 where
  apply_event : LedgerEvent → Command
  book : (transaction_id payment_id counterparty currency : String) → ℤ → Time → Command
  reverse :
      (transaction_id reference_type payment_id counterparty currency : String) → ℤ → Time → Command
  transfer_out transfer_in : TransferEventData → Command

-- A call of one of the five methods.
unfoldable pub run :
    Command → LedgerAccountAggregate → LedgerAccountAggregate × Result LedgerError Bool
run (apply_event e) a = apply_posting_event a e
run (book t r c cur delta at) a = book_payment a t r c cur delta at
run (reverse t k r c cur delta at) a = reverse_payment a t k r c cur delta at
run (transfer_out d) a = transfer_to_account a d
run (transfer_in d) a = receive_transfer a d

-- The amounts of the command are int64 values.
abbrev pub IsTyped : Command → Type 0
IsTyped (book _ _ _ _ delta _) = IsInt64 delta
IsTyped (reverse _ _ _ _ _ delta _) = IsInt64 delta
IsTyped _ = Unit
