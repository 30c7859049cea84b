-- ===== src/Ledger/Posting/Normal.antt =====
-- core/modules/ledger/domain/aggregate/ledger_account_aggregate.go: what normalisation
-- guarantees of a posting, and that it changes nothing the second time.
use wechat_clone.Base.{◌≡◌, ap, sym, ◌∙◌, String, true, false, arith, ◌==◌}
use wechat_clone.Base.Int.{pos, eqb_ℤ}
use wechat_clone.Base.Text.{trim_space, trim_space_idem}
use wechat_clone.Base.Text.Case.{upper_trimmed_idem}
use wechat_clone.Base.Time.{is_zero}
use wechat_clone.Base.Results.{ok, chain-Passed}
use wechat_clone.Ledger.Posting.{
  LedgerAccountPosting, is_known_reference_type, normalized, validate_posting,
  normalize_ledger_account_posting, new_ledger_posting, new_payment_posting,
}

-- A posting of the account `id` that has passed the validation, and that trimming leaves alone.
pub record IsNormal (id : String) (p : LedgerAccountPosting) : Type 0 where
  pub account_given : (id == "") ≡ false
  pub type_known : is_known_reference_type p.reference_type ≡ true
  pub transaction_given : (p.transaction_id == "") ≡ false
  pub reference_given : (p.reference_id == "") ≡ false
  pub counterparty_given : (p.counterparty_account_id == "") ≡ false
  pub accounts_differ : (p.counterparty_account_id == id) ≡ false
  pub currency_given : (p.currency == "") ≡ false
  pub amount_nonzero : eqb_ℤ p.amount_delta (pos 0) ≡ false
  pub booked : is_zero p.booked_at ≡ false
  pub fixed : normalized p ≡ p

normalized_idem : (p : LedgerAccountPosting) → normalized (normalized p) ≡ normalized p
unfolding normalized
normalized_idem p = cc (
  trim_space_idem p.transaction_id,
  trim_space_idem p.reference_type,
  trim_space_idem p.reference_id,
  trim_space_idem p.counterparty_account_id,
  upper_trimmed_idem p.currency,
)

validate_posting-IsNormal :
    (id : String) (p : LedgerAccountPosting)
    → validate_posting id p ≡ ok tt
    → normalized p ≡ p
    → IsNormal id p
unfolding validate_posting
validate_posting-IsNormal id p h fixed = ground arith

validate_posting_of_IsNormal :
    (id : String) (p : LedgerAccountPosting) → IsNormal id p → validate_posting id p ≡ ok tt
unfolding validate_posting
validate_posting_of_IsNormal id p n = ground arith

normalize_split :
    (id id' : String) (p q : LedgerAccountPosting)
    → normalize_ledger_account_posting id p ≡ ok (id', q)
    → (validate_posting (trim_space id) (normalized p) ≡ ok tt)
      × (id' ≡ trim_space id)
      × (q ≡ normalized p)
unfolding normalize_ledger_account_posting
normalize_split id id' p q h = ground arith

pub normalize-IsNormal :
    (id id' : String) (p q : LedgerAccountPosting)
    → normalize_ledger_account_posting id p ≡ ok (id', q)
    → IsNormal id' q × (id' ≡ trim_space id) × (q ≡ normalized p)
normalize-IsNormal id id' p q h =
    let (passed, e, f) = normalize_split id id' p q h in
    (
      rw (e, f)
          (validate_posting-IsNormal (trim_space id) (normalized p) passed (normalized_idem p)),
      e,
      f,
    )

pub normalize_of_IsNormal :
    (id : String) (p : LedgerAccountPosting)
    → trim_space id ≡ id
    → IsNormal id p
    → normalize_ledger_account_posting id p ≡ ok (id, p)
unfolding normalize_ledger_account_posting
normalize_of_IsNormal id p t n = rw (t, n.fixed, validate_posting_of_IsNormal id p n)

new_ledger_posting_of_IsNormal :
    (id : String) (p : LedgerAccountPosting) → IsNormal id p → new_ledger_posting p ≡ ok p
unfolding new_ledger_posting
new_ledger_posting_of_IsNormal id p n = rw n.fixed (ground arith)

new_ledger_posting_ok :
    (p q : LedgerAccountPosting) → new_ledger_posting p ≡ ok q → q ≡ normalized p
unfolding new_ledger_posting
new_ledger_posting_ok p q h = ground arith

-- What the constructor returns is normal.
pub new_payment_posting-IsNormal :
    (id : String) (p q : LedgerAccountPosting)
    → new_payment_posting id p ≡ ok q
    → IsNormal (trim_space id) q × (q ≡ normalized p)
unfolding new_payment_posting
new_payment_posting-IsNormal id p q h =
    let made = chain-Passed (new_ledger_posting p) _ h in
    let normal = chain-Passed (normalize_ledger_account_posting id made.value) _ made.rest in
    let (n, f, g) = normalize-IsNormal id normal.value.0 made.value normal.value.1 normal.first in
    let same : normal.value.1 ≡ q = cc normal.rest in
    (
      rw (← same, ← f) n,
      sym same
          ∙ g
          ∙ ap normalized (new_ledger_posting_ok p made.value made.first)
          ∙ normalized_idem p,
    )

-- A normal posting passes through the constructor unchanged.
pub new_payment_posting_of_IsNormal :
    (id : String) (p : LedgerAccountPosting)
    → trim_space id ≡ id
    → IsNormal id p
    → new_payment_posting id p ≡ ok p
unfolding new_payment_posting
new_payment_posting_of_IsNormal id p t n =
    rw (new_ledger_posting_of_IsNormal id p n) (rw (normalize_of_IsNormal id p t n))
