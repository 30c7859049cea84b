-- ===== src/Payment/Intent/Normal.antt =====
-- core/modules/payment/domain/entity/payment_intent_behavior.go: what ensureWorkflowDefaults
-- establishes, and that it does nothing the second time.
use wechat_clone.Base.{
  ◌≡◌, refl, sym, ap, ◌∙◌, inl, inr, ◌⊎◌, String, Bool, true, false, ◌==◌, arith, if◌then◌else◌,
  Bool-cases,
}
use wechat_clone.Base.Int.{ℤ, pos, leb_ℤ, add64}
use wechat_clone.Base.Text.{trim_space, trim_space_idem, to_upper, is_space}
use wechat_clone.Base.Text.Append.{trim_space-concat}
use wechat_clone.Base.Text.Case.{
  upper_trimmed, lower_trimmed, upper_trimmed_idem, lower_trimmed_idem, trim_space-lower_trimmed,
}
use wechat_clone.Payment.Status.{creating, valid_payment_status, normalize_payment_status}
use wechat_clone.Payment.Intent.{
  PaymentIntent, top_up, withdrawal, normalize_payment_workflow, provider_clearing_account_key,
  effective_clearing_account_key, or_default, ensure_workflow_defaults,
}

-- The workflow, once it is set, stays.
pub workflow_fixed :
    (w : String)
    → or_default
        (normalize_payment_workflow (or_default (normalize_payment_workflow w) top_up))
        top_up
      ≡ or_default (normalize_payment_workflow w) top_up
unfolding normalize_payment_workflow upper_trimmed trim_space to_upper
workflow_fixed w = elim (Bool-cases (upper_trimmed w == top_up)) [
  | inl e ↦ rw e refl
  | inr e ↦ elim (Bool-cases (upper_trimmed w == withdrawal)) [
    | inl f ↦ rw (e, f) refl
    | inr f ↦ rw (e, f) refl
  ]
]

valid_cases : (s : String) → (valid_payment_status s ≡ s) ⊎ (valid_payment_status s ≡ "")
unfolding valid_payment_status
valid_cases s = ground arith

empty_status : normalize_payment_status "" ≡ ""
unfolding normalize_payment_status upper_trimmed trim_space to_upper
empty_status = refl

pub creating_status : normalize_payment_status creating ≡ creating
unfolding normalize_payment_status upper_trimmed trim_space to_upper
creating_status = refl

-- A status that has been normalised stays.
pub normalize_payment_status_idem :
    (s : String)
    → normalize_payment_status (normalize_payment_status s) ≡ normalize_payment_status s
unfolding normalize_payment_status
normalize_payment_status_idem s = elim (valid_cases (upper_trimmed s)) [
  | inl e ↦ ap normalize_payment_status e ∙ ap valid_payment_status (upper_trimmed_idem s)
  | inr e ↦ ap normalize_payment_status e ∙ empty_status ∙ sym e
]

status_fixed :
    (s : String)
    → or_default
        (normalize_payment_status (or_default (normalize_payment_status s) creating))
        creating
      ≡ or_default (normalize_payment_status s) creating
status_fixed s = elim (Bool-cases (normalize_payment_status s == "")) [
  | inl e ↦ rw (e, creating_status) refl
  | inr e ↦ rw (e, normalize_payment_status_idem s, e)
]

provider_key_fixed :
    (provider : String)
    → trim_space (provider_clearing_account_key provider) ≡ provider_clearing_account_key provider
unfolding provider_clearing_account_key is_space
provider_key_fixed provider = elim (Bool-cases (lower_trimmed provider == "")) [
  | inl e ↦ rw e (unfold trim_space in refl)
  | inr e ↦ rw e (
      trim_space-concat "p" "rovider:" (lower_trimmed provider) refl
        (trim_space-lower_trimmed provider) e)
]

lowered_provider :
    (provider : String)
    → provider_clearing_account_key (lower_trimmed provider)
      ≡ provider_clearing_account_key provider
unfolding provider_clearing_account_key
lowered_provider provider = rw (lower_trimmed_idem provider)

pub effective_clearing_account_key_fixed :
    (provider key : String)
    → effective_clearing_account_key
        (lower_trimmed provider)
        (effective_clearing_account_key provider key)
      ≡ effective_clearing_account_key provider key
unfolding effective_clearing_account_key
effective_clearing_account_key_fixed provider key = elim (Bool-cases (trim_space key == "")) [
  | inr e ↦ rw (e, trim_space_idem key, e)
  | inl e ↦ elim (Bool-cases (provider_clearing_account_key provider == "")) [
    | inl f ↦ rw (e, provider_key_fixed provider, f) (lowered_provider provider)
    | inr f ↦ rw (e, provider_key_fixed provider, f)
  ]
]

abbrev provider_amount_of : (amount fee provider_amount : ℤ) → String → ℤ
provider_amount_of amount fee provider_amount workflow =
    if leb_ℤ provider_amount (pos 0)
    then (if workflow == withdrawal then amount else add64 amount fee)
    else provider_amount

amount_fixed :
    (amount fee x : ℤ) (w : String)
    → provider_amount_of amount fee (provider_amount_of amount fee x w) w
      ≡ provider_amount_of amount fee x w
amount_fixed amount fee x w = elim (Bool-cases (leb_ℤ x (pos 0))) [
  | inr e ↦ rw (e, e)
  | inl e ↦ rw e (if_same (leb_ℤ (if w == withdrawal then amount else add64 amount fee) (pos 0)) _)
]
  where
    if_same : (t : Bool) (y : ℤ) → (if t then y else y) ≡ y
    if_same true y = refl
    if_same false y = refl

-- The defaults are ensured once: doing it again changes nothing.
pub ensure_workflow_defaults_idem :
    (p : PaymentIntent)
    → ensure_workflow_defaults (ensure_workflow_defaults p) ≡ ensure_workflow_defaults p
unfolding ensure_workflow_defaults
ensure_workflow_defaults_idem p = cc (
  trim_space_idem p.transaction_id,
  workflow_fixed p.workflow,
  lower_trimmed_idem p.provider,
  trim_space_idem p.external_ref,
  trim_space_idem p.destination_account_id,
  upper_trimmed_idem p.currency,
  effective_clearing_account_key_fixed (lower_trimmed p.provider) p.clearing_account_key,
  trim_space_idem p.debit_account_id,
  trim_space_idem p.credit_account_id,
  amount_fixed p.amount p.fee_amount p.provider_amount
      (or_default (normalize_payment_workflow p.workflow) top_up),
  status_fixed p.status,
)
