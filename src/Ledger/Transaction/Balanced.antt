-- ===== src/Ledger/Transaction/Balanced.antt =====
-- core/modules/ledger/domain/entity/ledger.go: which entries make a transaction, and which
-- transaction they make.
use wechat_clone.Base.{
  ℕ, ◌+◌, ◌≡◌, refl, sym, ap, ◌∙◌, inl, inr, String, true, false, List, [], ◌∷◌, ◌++◌, map, ◌==◌,
  eq_iff, arith, if◌then◌else◌, Bool-cases, length, ◌⊎◌, append-nil, append_assoc, subst, ltb,
}
use wechat_clone.Base.Int.{
  ℤ, pos, eqb_ℤ, ◌+ℤ◌, add64, wrap64, int_laws, wrap64-add_left, wrap64_of_IsInt64, wrap64-IsInt64,
}
use wechat_clone.Base.Text.{trim_space}
use wechat_clone.Base.Text.Case.{upper_trimmed}
use wechat_clone.Base.Time.{Time}
use wechat_clone.Base.Results.{ok, chain-Passed}
use wechat_clone.Ledger.Transaction.{
  LedgerEntry, LedgerEntryInput, LedgerTransaction, Draft, validate_entry, entry_of, add_entry,
  add_entries, empty_draft, finish, new_ledger_transaction,
}

-- An input that can stand in a transaction of the currency `currency`.
pub record IsEntry (currency : String) (input : LedgerEntryInput) : Type 0 where
  pub account_given : (trim_space input.account_id == "") ≡ false
  pub currency_given : (currency == "") ≡ false
  pub currency_shared : upper_trimmed input.currency ≡ currency
  pub amount_nonzero : eqb_ℤ input.amount (pos 0) ≡ false

abbrev pub AreEntries : String → List LedgerEntryInput → Type 0
AreEntries currency [] = Unit
AreEntries currency (input ∷ rest) = IsEntry currency input × AreEntries currency rest

-- The sum of the amounts, in the integers.
abbrev pub total : List LedgerEntryInput → ℤ
total [] = pos 0
total (input ∷ rest) = input.amount +ℤ total rest

-- The draft once its first entry has fixed the currency.
abbrev pub drafted : Draft → String → List LedgerEntry → ℤ → Draft
drafted d currency more sum = record { currency = currency; sum = sum; entries = d.entries ++ more }

-- What the loop makes of a currency that is not fixed yet.
abbrev fixed : String → LedgerEntryInput → String
fixed c input = if c == "" then upper_trimmed input.currency else c

fixed-IsEntry :
    (c : String) (i : ℕ) (input : LedgerEntryInput)
    → validate_entry c i input ≡ ok tt
    → IsEntry (fixed c input) input
unfolding validate_entry
fixed-IsEntry c i input h = ground (arith, eq_iff c (upper_trimmed input.currency))

validate_entry_of_IsEntry :
    (c c' : String) (i : ℕ) (input : LedgerEntryInput)
    → ((c == "") ≡ true) ⊎ (c ≡ c')
    → IsEntry c' input
    → validate_entry c i input ≡ ok tt
unfolding validate_entry
validate_entry_of_IsEntry c c' i input k h = ground (arith, eq_iff c (upper_trimmed input.currency))

fixed_of_IsEntry :
    (c c' : String) (input : LedgerEntryInput)
    → ((c == "") ≡ true) ⊎ (c ≡ c')
    → IsEntry c' input
    → fixed c input ≡ c'
fixed_of_IsEntry c c' input k h = ground arith

sum_step : (s a t : ℤ) → wrap64 (add64 s a +ℤ t) ≡ wrap64 (s +ℤ (a +ℤ t))
unfolding add64
sum_step s a t = wrap64-add_left (s +ℤ a) t ∙ ap wrap64 (omega int_laws)

module _ (id : String) (now : Time) where
  -- What the loop has read when it ends without an error.
  record Reads (d : Draft) (inputs : List LedgerEntryInput) (d' : Draft) : Type 0 where
    entries : d'.entries ≡ d.entries ++ map (entry_of id now) inputs
    sum : wrap64 d'.sum ≡ wrap64 (d.sum +ℤ total inputs)
    valid : AreEntries d'.currency inputs
    kept : (d.currency == "") ≡ false → d'.currency ≡ d.currency

  add_entries-Reads :
      (i : ℕ) (d d' : Draft) (inputs : List LedgerEntryInput)
      → add_entries id now i d inputs ≡ ok d'
      → Reads d inputs d'
  unfolding add_entries add_entry
  add_entries-Reads i d d' [] h =
      let same : d ≡ d' = cc h in
      subst (Reads d []) same (record {
        entries = sym (append-nil d.entries);
        sum = ap wrap64 (omega int_laws);
        valid = tt;
        kept = λ _. refl;
      })
  add_entries-Reads i d d' (input ∷ rest) h =
      let step = chain-Passed (validate_entry d.currency i input) _ h in
      let later = add_entries-Reads (i + 1) (add_entry id now d input) d' rest step.rest in
      let head = fixed-IsEntry d.currency i input step.first in
      let same : d'.currency ≡ fixed d.currency input = later.kept head.currency_given in
      record {
        entries =
            later.entries
            ∙ append_assoc d.entries (entry_of id now input ∷ []) (map (entry_of id now) rest);
        sum = later.sum ∙ sum_step d.sum input.amount (total rest);
        valid = (rw same head, later.valid);
        kept = λ e. rw same (rw e);
      }

  -- The loop ends without an error on entries of one currency, with a sum that is an int64.
  add_entries_of_AreEntries :
      (c : String) (i : ℕ) (d : Draft) (inputs : List LedgerEntryInput)
      → wrap64 d.sum ≡ d.sum
      → ((d.currency == "") ≡ true) ⊎ (d.currency ≡ c)
      → AreEntries c inputs
      → (d' : Draft) × (add_entries id now i d inputs ≡ ok d') × (wrap64 d'.sum ≡ d'.sum)
  unfolding add_entries add_entry add64
  add_entries_of_AreEntries c i d [] w k h = (d, refl, w)
  add_entries_of_AreEntries c i d (input ∷ rest) w k h =
      let next = add_entry id now d input in
      let (d', run, w') =
        add_entries_of_AreEntries c (i + 1) next rest
          (wrap64_of_IsInt64 (wrap64 (d.sum +ℤ input.amount))
            (wrap64-IsInt64 (d.sum +ℤ input.amount)))
          (inr (fixed_of_IsEntry d.currency c input k h.0)) h.1 in
      (d', rw (validate_entry_of_IsEntry d.currency c i input k h.0) run, w')

-- The transaction `t` is what the entries say, and its amounts sum to zero (in int64).
pub record IsTransactionOf (now : Time) (id : String) (inputs : List LedgerEntryInput)
    (t : LedgerTransaction) : Type 0 where
  pub id_given : (trim_space id == "") ≡ false
  pub transaction_id : t.transaction_id ≡ trim_space id
  pub created_at : t.created_at ≡ now
  pub entries : t.entries ≡ map (entry_of (trim_space id) now) inputs
  pub enough : ltb (length inputs) 2 ≡ false
  pub valid : AreEntries t.currency inputs
  pub balanced : wrap64 (total inputs) ≡ pos 0

finish_ok :
    (id : String) (now : Time) (d : Draft) (t : LedgerTransaction)
    → finish id now d ≡ ok t
    → (d.sum ≡ pos 0)
      × (t ≡ record {
        transaction_id = id;
        currency = d.currency;
        created_at = now;
        entries = d.entries;
      })
unfolding finish
finish_ok id now d t h = ground arith

wrap64_zero : wrap64 (pos 0) ≡ pos 0
unfolding wrap64
wrap64_zero = refl

zero_sum : (s t : ℤ) → wrap64 s ≡ wrap64 (pos 0 +ℤ t) → wrap64 s ≡ wrap64 t
zero_sum s t h = h ∙ ap wrap64 (omega int_laws)

-- A transaction that the constructor returns has the trimmed identifier and the entries that were
-- given, in their order, with trimmed accounts and the currency that all of them share; there are
-- at least two of them, none has the amount zero, and the amounts sum to zero as an int64.
pub new_ledger_transaction-IsTransactionOf :
    (now : Time) (id : String) (inputs : List LedgerEntryInput) (t : LedgerTransaction)
    → new_ledger_transaction now id inputs ≡ ok t
    → IsTransactionOf now id inputs t
unfolding new_ledger_transaction
new_ledger_transaction-IsTransactionOf now id inputs t h = elim (Bool-cases (trim_space id == "")) [
  | inl e ↦ absurd (cc (rw e at h))
  | inr e ↦ elim (Bool-cases (ltb (length inputs) 2)) [
    | inl f ↦ absurd (cc (rw (e, f) at h))
    | inr f ↦
        let run =
          chain-Passed (add_entries (trim_space id) now 0 empty_draft inputs)
            (finish (trim_space id) now) (rw (e, f) at h) in
        let read = add_entries-Reads (trim_space id) now 0 empty_draft run.value inputs run.first in
        let (zero, made) = finish_ok (trim_space id) now run.value t run.rest in
        rw made (record {
          id_given = e;
          transaction_id = refl;
          created_at = refl;
          entries = read.entries;
          enough = f;
          valid = read.valid;
          balanced =
              sym (zero_sum run.value.sum (total inputs) read.sum) ∙ ap wrap64 zero ∙ wrap64_zero;
        })
  ]
]

one_currency :
    (inputs : List LedgerEntryInput) (c c' : String)
    → ltb (length inputs) 2 ≡ false
    → AreEntries c inputs
    → AreEntries c' inputs
    → c ≡ c'
one_currency [] c c' n h k = absurd (cc n)
one_currency (input ∷ rest) c c' n h k = sym h.0.currency_shared ∙ k.0.currency_shared

-- Whatever meets that description is accepted, and the transaction returned is that one.
pub new_ledger_transaction_of_IsTransactionOf :
    (now : Time) (id : String) (inputs : List LedgerEntryInput) (t : LedgerTransaction)
    → IsTransactionOf now id inputs t
    → new_ledger_transaction now id inputs ≡ ok t
unfolding new_ledger_transaction finish
new_ledger_transaction_of_IsTransactionOf now id inputs t h =
    let (d, run, w) =
      add_entries_of_AreEntries (trim_space id) now t.currency 0 empty_draft inputs wrap64_zero
        (inl refl) h.valid in
    let read = add_entries-Reads (trim_space id) now 0 empty_draft d inputs run in
    let zero : d.sum ≡ pos 0 = sym w ∙ zero_sum d.sum (total inputs) read.sum ∙ h.balanced in
    let currency : d.currency ≡ t.currency =
      one_currency inputs d.currency t.currency h.enough read.valid h.valid in
    rw (h.id_given, h.enough, run, zero)
      (cc (currency, read.entries, h.entries, h.transaction_id, h.created_at))
