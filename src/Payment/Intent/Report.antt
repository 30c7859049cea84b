-- ===== src/Payment/Intent/Report.antt =====
-- core/modules/payment/domain/entity/payment_intent_behavior.go: which reports of a provider
-- TransitionProviderResult accepts, and what it leaves where it does not.
use wechat_clone.Base.{
  ◌≡◌, refl, ◌⊎◌, inl, inr, String, Bool, true, false, ◌||◌, ◌==◌, arith, Bool-cases,
}
use wechat_clone.Base.Int.{ℤ, pos, eqb_ℤ, ltb_ℤ}
use wechat_clone.Base.Text.{trim_space}
use wechat_clone.Base.Text.Case.{equal_fold}
use wechat_clone.Base.Time.{Time}
use wechat_clone.Base.Results.{Result, ok, err, Result-cases}
use wechat_clone.Payment.Status.{
  refunded, chargeback, normalize_payment_status, normalize_payment_status_or_pending,
  PaymentTransition,
}
use wechat_clone.Payment.Intent.Normal.{ensure_workflow_defaults_idem}
use wechat_clone.Payment.Intent.{
  PaymentIntent, PaymentError, PaymentProviderResult, ensure_workflow_defaults,
  validate_provider_result_for_status, transition_provider_state, transition_provider_result,
}

abbrev pub is_reversal : String → Bool
is_reversal status =
    let s = normalize_payment_status_or_pending status in s == refunded || s == chargeback

-- A report whose amount and currency fit the intent: no amount, or exactly the provider's amount,
-- or for a refund and a chargeback at most that; no currency, or the intent's in any case.
pub record Fits (p : PaymentIntent) (status : String) (amount : ℤ) (currency : String)
    : Type 0 where
  pub amount_fits :
      (eqb_ℤ amount (pos 0) ≡ true)
      ⊎ ((is_reversal status ≡ true) × (ltb_ℤ p.provider_amount amount ≡ false))
      ⊎ ((is_reversal status ≡ false) × (eqb_ℤ amount p.provider_amount ≡ true))
  pub currency_fits :
      ((trim_space currency == "") ≡ true) ⊎ (equal_fold (trim_space currency) p.currency ≡ true)

validate-Fits :
    (p : PaymentIntent) (status : String) (amount : ℤ) (currency : String)
    → validate_provider_result_for_status p status amount currency ≡ ok tt
    → Fits p status amount currency
unfolding validate_provider_result_for_status
validate-Fits p status amount currency h = ground arith

-- What a call has done, by what it returns.
abbrev pub Reports :
    PaymentIntent
    → PaymentProviderResult
    → PaymentIntent × Result PaymentError PaymentTransition
    → Type 0
Reports p r (q, err _) = q ≡ ensure_workflow_defaults p
Reports p r (q, ok t) =
    Fits (ensure_workflow_defaults p) (normalize_payment_status_or_pending r.status) r.amount
      r.currency

transition_provider_state-err :
    (now at : Time) (p : PaymentIntent) (r : PaymentProviderResult) (ref status : String)
    → Fits
        (ensure_workflow_defaults p)
        (normalize_payment_status_or_pending r.status)
        r.amount
        r.currency
    → Reports p r (transition_provider_state now (ensure_workflow_defaults p) ref status at)
unfolding transition_provider_state
transition_provider_state-err now at p r ref status f =
    elim (Bool-cases (normalize_payment_status status == "")) [
      | inl e ↦ rw e (ensure_workflow_defaults_idem p)
      | inr e ↦ rw e f
    ]

-- A report that is accepted fits the intent; and one that is refused, for its amount, its currency
-- or its status, changes nothing of the intent but the defaults.
pub transition_provider_result-Reports :
    (now at : Time) (p : PaymentIntent) (r : PaymentProviderResult)
    → Reports p r (transition_provider_result now p r at)
unfolding transition_provider_result
transition_provider_result-Reports now at p r =
    let q = ensure_workflow_defaults p in
    let status = normalize_payment_status_or_pending r.status in
    elim (Result-cases (validate_provider_result_for_status q status r.amount r.currency)) [
      | inl (_, e) ↦
          rw (e, transition_provider_result)
            (transition_provider_state-err now at p r r.external_ref status
              (validate-Fits q status r.amount r.currency e))
      | inr (x, e) ↦ rw (e, transition_provider_result) refl
    ]
