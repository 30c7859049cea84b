-- ===== src/Ledger/Account/Balance.antt =====
-- core/modules/ledger/domain/aggregate/ledger_account_aggregate.go: balances after a booking.
use wechat_clone.Base.{subst}
use wechat_clone.Base.{
  ◌≡◌, refl, ap, sym, ◌∙◌, inl, inr, String, true, none, arith, ◌==◌, eq_iff, if◌then◌else◌,
  Bool-cases,
}
use wechat_clone.Base.Int.{ℤ, pos, ◌≤ℤ◌, ltb_ℤ, add64}
use wechat_clone.Base.Text.Case.{upper_trimmed}
use wechat_clone.Base.Maps.{get_or, get_or-insert}
use wechat_clone.Ledger.Posting.{LedgerAccountPosting, requires_non_negative_balance}
use wechat_clone.Ledger.Account.{LedgerAccountState, balance, ensure_posting_allowed, post}

-- A booked posting moves the balance of its own currency by its amount, in int64, and no other.
pub balance-post :
    (s : LedgerAccountState) (id : String) (p : LedgerAccountPosting) (c : String)
    → balance (post s id p) c
      ≡ (if p.currency == upper_trimmed c then add64 (balance s c) p.amount_delta else balance s c)
unfolding balance post
balance-post s id p c = elim (Bool-cases (p.currency == upper_trimmed c)) [
  | inl e ↦
      let k = (eq_iff p.currency (upper_trimmed c)).0 e in
      rw (get_or-insert, e)
        (ap (λ (x : String). add64 (get_or (pos 0) x s.balances) p.amount_delta) k)
  | inr e ↦ rw (get_or-insert, e)
]

pub balance-post_self :
    (s : LedgerAccountState) (id : String) (p : LedgerAccountPosting)
    → upper_trimmed p.currency ≡ p.currency
    → balance (post s id p) p.currency ≡ add64 (balance s p.currency) p.amount_delta
balance-post_self s id p c =
    balance-post s id p p.currency ∙ rw (c, (eq_iff p.currency p.currency).1 refl)

allowed_nonneg :
    (s : LedgerAccountState) (p : LedgerAccountPosting)
    → ensure_posting_allowed s p ≡ none
    → ltb_ℤ p.amount_delta (pos 0) ≡ true
    → requires_non_negative_balance p.reference_type ≡ true
    → pos 0 ≤ℤ add64 (balance s p.currency) p.amount_delta
unfolding ensure_posting_allowed
allowed_nonneg s p allowed neg guarded = ground arith

-- What a debit that may not overdraw leaves is not negative.
pub solvent :
    (s : LedgerAccountState) (id : String) (p : LedgerAccountPosting)
    → ensure_posting_allowed s p ≡ none
    → upper_trimmed p.currency ≡ p.currency
    → ltb_ℤ p.amount_delta (pos 0) ≡ true
    → requires_non_negative_balance p.reference_type ≡ true
    → pos 0 ≤ℤ balance (post s id p) p.currency
solvent s id p allowed c neg guarded =
    subst (λ (z : ℤ). pos 0 ≤ℤ z) (sym (balance-post_self s id p c))
      (allowed_nonneg s p allowed neg guarded)
