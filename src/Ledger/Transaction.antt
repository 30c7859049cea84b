-- ===== src/Ledger/Transaction.antt =====
-- core/modules/ledger/domain/entity/ledger.go: the double-entry transaction. The clock is an
-- argument, and the identifier of an entry, which the database gives, is left out.
pub mod Balanced
use wechat_clone.Base.{
  ℕ, ◌+◌, String, Bool, not, ◌&&◌, List, [], ◌∷◌, ◌++◌, ◌==◌, if◌then◌else◌, ltb, length,
}
use wechat_clone.Base.Int.{ℤ, pos, eqb_ℤ, add64}
use wechat_clone.Base.Text.{trim_space}
use wechat_clone.Base.Text.Case.{upper_trimmed}
use wechat_clone.Base.Time.{Time, utc}
use wechat_clone.Base.Results.{Result, ok, ◌>>=◌, ◌>>◌, fail_if}

pub data EntryError : Type 0 where
  entry_account_required entry_currency_required entry_amount_zero : EntryError

-- The first three errors of an entry carry its index.
pub data TransactionError : Type 0 where
  transaction_id_required entries_required entries_unbalanced : TransactionError
  entries_currency_mixed : TransactionError
  entry_invalid : ℕ → EntryError → TransactionError

pub record LedgerEntry : Type 0 where
  pub transaction_id : String
  pub account_id : String
  pub currency : String
  pub amount : ℤ
  pub created_at : Time

pub record LedgerEntryInput : Type 0 where
  pub account_id : String
  pub currency : String
  pub amount : ℤ

pub record LedgerTransaction : Type 0 where
  pub transaction_id : String
  pub currency : String
  pub created_at : Time
  pub entries : List LedgerEntry

-- What the loop over the entries carries: `transactionCurrency`, `sum` and `transaction.Entries`.
pub record Draft : Type 0 where
  pub currency : String
  pub sum : ℤ
  pub entries : List LedgerEntry

-- The tests of one entry.
unfoldable pub validate_entry : String → ℕ → LedgerEntryInput → Result TransactionError (Unit {0})
validate_entry currency i input = do
  fail_if (trim_space input.account_id == "") (entry_invalid i entry_account_required)
  fail_if (upper_trimmed input.currency == "") (entry_invalid i entry_currency_required)
  fail_if (eqb_ℤ input.amount (pos 0)) (entry_invalid i entry_amount_zero)
  fail_if (not (currency == "") && not (currency == upper_trimmed input.currency))
      entries_currency_mixed

module _ (transaction_id : String) (now : Time) where
  -- The entry that is appended.
  unfoldable pub entry_of : LedgerEntryInput → LedgerEntry
  entry_of input = record {
    transaction_id = transaction_id;
    account_id = trim_space input.account_id;
    currency = upper_trimmed input.currency;
    amount = input.amount;
    created_at = now;
  }

  -- The draft after one more entry.
  unfoldable pub add_entry : Draft → LedgerEntryInput → Draft
  unfolding entry_of
  add_entry d input = record {
    currency = if d.currency == "" then upper_trimmed input.currency else d.currency;
    sum = add64 d.sum input.amount;
    entries = d.entries ++ (entry_of input ∷ []);
  }

  -- The loop over the entries, from the index `i` on.
  unfoldable pub add_entries : ℕ → Draft → List LedgerEntryInput → Result TransactionError Draft
  unfolding validate_entry add_entry
  add_entries i d [] = ok d
  add_entries i d (input ∷ rest) =
      validate_entry d.currency i input >>= λ _. add_entries (i + 1) (add_entry d input) rest

abbrev pub empty_draft : Draft
empty_draft = record { currency = ""; sum = pos 0; entries = [] }

-- The transaction of a draft, once the sum is tested.
unfoldable pub finish : String → Time → Draft → Result TransactionError LedgerTransaction
finish id now d =
    if eqb_ℤ d.sum (pos 0)
    then ok (record {
      transaction_id = id;
      currency = d.currency;
      created_at = now;
      entries = d.entries;
    })
    else Result.err entries_unbalanced

-- `NewLedgerTransaction`
unfoldable pub new_ledger_transaction :
    Time → String → List LedgerEntryInput → Result TransactionError LedgerTransaction
unfolding add_entries finish
new_ledger_transaction now id inputs = do
  fail_if (trim_space id == "") transaction_id_required
  fail_if (ltb (length inputs) 2) entries_required
  draft ← add_entries (trim_space id) (utc now) 0 empty_draft inputs
  finish (trim_space id) (utc now) draft
