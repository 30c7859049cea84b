-- ===== src/Payment/Intent/Created.antt =====
-- core/modules/payment/domain/entity/payment_intent_behavior.go: what a payment intent that
-- newPaymentIntent made has, and keeps whatever its provider reports.
use wechat_clone.Base.{
  ℕ, ◌≡◌, refl, sym, ap, ◌∙◌, inl, inr, String, true, false, ◌==◌, arith, subst, if◌then◌else◌,
  Bool-cases,
}
use wechat_clone.Base.Int.{pos, leb_ℤ, ltb_ℤ}
use wechat_clone.Base.Text.{trim_space, trim_space_idem}
use wechat_clone.Base.Text.Case.{lower_trimmed, upper_trimmed_idem, lower_trimmed_idem}
use wechat_clone.Base.Time.{Time}
use wechat_clone.Base.Results.{ok, chain-Passed}
use wechat_clone.Payment.Status.{
  creating, normalize_payment_status, normalize_payment_status_or_pending,
  resolve_payment_transition,
}
use wechat_clone.Payment.Intent.{
  PaymentIntent, top_up, withdrawal, normalize_payment_workflow, draft_intent, validate_intent,
  new_payment_intent, or_default, ensure_workflow_defaults, move_to, transition_provider_state,
}
use wechat_clone.Payment.Intent.Normal.{
  creating_status, workflow_fixed, effective_clearing_account_key_fixed,
}
use wechat_clone.Payment.Intent.Settled.{left_ref}
use wechat_clone.Payment.Intent.Delivery.{settle_shape, transition_provider_state-HasTaken}
use wechat_clone.Payment.Intent.Lifetime.{Delivered, start, after, refused, refused_ensured}

-- What every payment intent has: an identifier, a provider and a currency; amounts that are
-- positive, and a fee that is not negative; and the accounts that its workflow needs, which differ.
pub record IsFunded (p : PaymentIntent) : Type 0 where
  pub id_given : (p.transaction_id == "") ≡ false
  pub provider_given : (p.provider == "") ≡ false
  pub currency_given : (p.currency == "") ≡ false
  pub clearing_key_given : (p.clearing_account_key == "") ≡ false
  pub workflow_given : (p.workflow == "") ≡ false
  pub amount_positive : leb_ℤ p.amount (pos 0) ≡ false
  pub fee_nonneg : ltb_ℤ p.fee_amount (pos 0) ≡ false
  pub provider_amount_positive : leb_ℤ p.provider_amount (pos 0) ≡ false
  pub credit_given : (p.workflow == top_up) ≡ true → (p.credit_account_id == "") ≡ false
  pub debit_given : (p.workflow == withdrawal) ≡ true → (p.debit_account_id == "") ≡ false
  pub destination_given :
      (p.workflow == withdrawal) ≡ true → (p.destination_account_id == "") ≡ false
  pub accounts_differ :
      (p.debit_account_id == "") ≡ false
      → (p.credit_account_id == "") ≡ false
      → (p.debit_account_id == p.credit_account_id) ≡ false

-- An intent with its defaults ensured, and funded.
pub record IsIntent (p : PaymentIntent) : Type 0 where
  pub ensured : ensure_workflow_defaults p ≡ p
  pub funded : IsFunded p

validate_intent-IsFunded : (p : PaymentIntent) → validate_intent p ≡ ok tt → IsFunded p
unfolding validate_intent
validate_intent-IsFunded p h = ground arith

empty_trimmed : trim_space "" ≡ ""
unfolding trim_space
empty_trimmed = refl

draft_intent_ensured :
    (now : Time) (input : PaymentIntent)
    → IsFunded (draft_intent now input)
    → ensure_workflow_defaults (draft_intent now input) ≡ draft_intent now input
unfolding draft_intent ensure_workflow_defaults
draft_intent_ensured now input h =
    let w : or_default (normalize_payment_workflow input.workflow) top_up
        ≡ normalize_payment_workflow input.workflow =
      rw h.workflow_given in
    let v : or_default (normalize_payment_workflow (normalize_payment_workflow input.workflow))
          top_up
        ≡ normalize_payment_workflow input.workflow =
      rw w at (workflow_fixed input.workflow) in
    let s : or_default (normalize_payment_status creating) creating ≡ creating =
      rw creating_status refl in
    rw h.provider_amount_positive (
      cc (
        v,
        s,
        trim_space_idem input.transaction_id,
        lower_trimmed_idem input.provider,
        trim_space_idem input.destination_account_id,
        upper_trimmed_idem input.currency,
        effective_clearing_account_key_fixed (lower_trimmed input.provider)
            input.clearing_account_key,
        trim_space_idem input.debit_account_id,
        trim_space_idem input.credit_account_id,
        empty_trimmed,
      ))

-- A payment intent that the constructor returns has its defaults ensured and is funded.
pub new_payment_intent-IsIntent :
    (now : Time) (input p : PaymentIntent) → new_payment_intent now input ≡ ok p → IsIntent p
unfolding new_payment_intent
new_payment_intent-IsIntent now input p h =
    let passed = chain-Passed (validate_intent (draft_intent now input)) _ h in
    let funded = validate_intent-IsFunded (draft_intent now input) passed.first in
    let same : draft_intent now input ≡ p = cc passed.rest in
    subst IsIntent same
      (record { ensured = draft_intent_ensured now input funded; funded = funded })

-- What a report may change of an intent: its status, its external reference and its update time.
abbrev pub Changes : PaymentIntent → PaymentIntent → Type 0
Changes p q =
    (s : String) × (r : String) × (u : Time) × (q
      ≡ record p { status = s; external_ref = r; updated_at = u })

transition_provider_state-Changes :
    (now at : Time) (p : PaymentIntent) (ref status : String)
    → Changes (ensure_workflow_defaults p) (transition_provider_state now p ref status at).0
unfolding transition_provider_state move_to
transition_provider_state-Changes now at p ref status =
    let q = ensure_workflow_defaults p in
    let next = normalize_payment_status status in
    elim (Bool-cases (next == "")) [
      | inl e ↦ rw e (q.status, q.external_ref, q.updated_at, refl)
      | inr e ↦
          let t = resolve_payment_transition (normalize_payment_status_or_pending q.status) next in
          let (u, shape) = settle_shape now q ref t at in
          rw e (
            if t.state_changed then t.current_status else q.status,
            left_ref q.external_ref ref,
            u,
            shape,
          )
    ]

Changes-IsFunded : (p q : PaymentIntent) → Changes p q → IsFunded p → IsFunded q
Changes-IsFunded p q (s, r, u, same) f = rw same (record {
  id_given = f.id_given;
  provider_given = f.provider_given;
  currency_given = f.currency_given;
  clearing_key_given = f.clearing_key_given;
  workflow_given = f.workflow_given;
  amount_positive = f.amount_positive;
  fee_nonneg = f.fee_nonneg;
  provider_amount_positive = f.provider_amount_positive;
  credit_given = f.credit_given;
  debit_given = f.debit_given;
  destination_given = f.destination_given;
  accounts_differ = f.accounts_differ;
})

Changes-trans : (p q r : PaymentIntent) → Changes p q → Changes q r → Changes p r
Changes-trans p q r (_, _, _, one) (s, ref, u, two) = (
  s,
  ref,
  u,
  two ∙ ap (λ (x : PaymentIntent). record x { status = s; external_ref = ref; updated_at = u }) one,
)

Delivered-IsIntent :
    {p q : PaymentIntent} {n : ℕ} → IsIntent p → Delivered p n q → IsIntent q × Changes p q
Delivered-IsIntent {p} h start = (h, (p.status, p.external_ref, p.updated_at, refl))
Delivered-IsIntent {p} h (after {n} {q} {r} now at ref status t before done) =
    let (k, kept) = Delivered-IsIntent h before in
    let changes = rw (done, k.ensured) at (transition_provider_state-Changes now at q ref status) in
    let has : IsIntent r = record {
      ensured = (transition_provider_state-HasTaken now at q r ref status t done).ensured;
      funded = Changes-IsFunded q r changes k.funded;
    } in
    (has, Changes-trans p q r kept changes)
Delivered-IsIntent {p} h (refused {n} {q} {r} now at ref status e before done) =
    let both = Delivered-IsIntent h before in
    subst (λ (x : PaymentIntent). IsIntent x × Changes p x)
      (sym both.0.ensured ∙ refused_ensured now at q r ref status e done) both

-- Whatever the provider reports of a payment intent that the constructor made, every field of the
-- intent but its status, its external reference and its update time stays as it was made; and the
-- intent still has its defaults ensured, positive amounts, a fee that is not negative, and the
-- accounts that its workflow needs, which differ.
pub new_payment_intent_kept :
    {n : ℕ} {q : PaymentIntent} (now : Time) (input p : PaymentIntent)
    → new_payment_intent now input ≡ ok p
    → Delivered p n q
    → IsIntent q × Changes p q
new_payment_intent_kept now input p made d =
    Delivered-IsIntent (new_payment_intent-IsIntent now input p made) d
