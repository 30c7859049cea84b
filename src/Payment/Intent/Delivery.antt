-- ===== src/Payment/Intent/Delivery.antt =====
-- core/modules/payment/domain/entity/payment_intent_behavior.go: what a provider's report does to
-- a payment intent, and that a report which is delivered again does nothing.
use wechat_clone.Base.{
  ◌≡◌, refl, ap, inl, inr, String, false, ◌==◌, subst, if◌then◌else◌, Bool-cases,
}
use wechat_clone.Base.Text.{trim_space}
use wechat_clone.Base.Time.{Time, time_or_now}
use wechat_clone.Base.Results.{ok}
use wechat_clone.Payment.Status.{
  normalize_payment_status, normalize_payment_status_or_pending, PaymentTransition,
  resolve_payment_transition,
}
use wechat_clone.Payment.Status.Moves.{
  Resolves, moves, stays, ignores, resolve_payment_transition-Resolves,
}
use wechat_clone.Payment.Intent.{
  PaymentIntent, ensure_workflow_defaults, set_external_ref, settle, move_to,
  transition_provider_state,
}
use wechat_clone.Payment.Intent.Normal.{
  creating_status, normalize_payment_status_idem, ensure_workflow_defaults_idem,
}
use wechat_clone.Payment.Intent.Settled.{
  IsStatus, or_pending_of_IsStatus, left_status, left_status-SettledFor, ensured_with, sets_ref,
  left_ref, ref_settled, ref_trimmed,
}

module _ (now : Time) (p : PaymentIntent) (ref : String) (t : PaymentTransition) (at : Time) where
  pub settle_shape :
      (u : Time) × ((settle now p ref t at).0 ≡ record p {
        status = if t.state_changed then t.current_status else p.status;
        external_ref = left_ref p.external_ref ref;
        updated_at = u;
      })
  unfolding settle set_external_ref
  settle_shape = elim (Bool-cases t.state_changed) [
    | inl e ↦ elim (Bool-cases (sets_ref p.external_ref ref)) [
      | inl f ↦ (time_or_now now at, rw (e, f))
      | inr f ↦ (time_or_now now at, rw (e, f))
    ]
    | inr e ↦ elim (Bool-cases (sets_ref p.external_ref ref)) [
      | inl f ↦ (time_or_now now at, rw (e, f))
      | inr f ↦ elim (Bool-cases t.external_ref_changed) [
        | inl g ↦ (time_or_now now at, rw (e, f, g))
        | inr g ↦ (p.updated_at, rw (e, f, g))
      ]
    ]
  ]

  -- A transition that changes nothing leaves the intent alone.
  settle_quiet :
      t.state_changed ≡ false
      → t.external_ref_changed ≡ false
      → sets_ref p.external_ref ref ≡ false
      → settle now p ref t at ≡ (p, t)
  unfolding settle set_external_ref
  settle_quiet e g f = rw (e, f, g)

Resolves-ref :
    (s n : String) (t : PaymentTransition) → Resolves s n t → t.external_ref_changed ≡ false
Resolves-ref s n _ (moves kind m) = refl
Resolves-ref s n _ (stays _) = refl
Resolves-ref s n _ (ignores _) = refl

-- The status that the defaults ensure is one.
pub ensure_workflow_defaults-IsStatus :
    (p : PaymentIntent) → IsStatus (ensure_workflow_defaults p).status
unfolding ensure_workflow_defaults
ensure_workflow_defaults-IsStatus p = elim (Bool-cases (normalize_payment_status p.status == "")) [
  | inl e ↦ rw e (creating_status, refl)
  | inr e ↦ rw e (normalize_payment_status_idem p.status, e)
]

-- An intent that has taken a report of the status `next` with the reference `ref`.
pub record HasTaken (next ref : String) (q : PaymentIntent) : Type 0 where
  pub asked : (next == "") ≡ false
  pub ensured : ensure_workflow_defaults q ≡ q
  pub status : IsStatus q.status
  pub quiet : (resolve_payment_transition q.status next).state_changed ≡ false
  pub ref_quiet : sets_ref q.external_ref ref ≡ false

ref_of_ensured :
    (p : PaymentIntent)
    → ensure_workflow_defaults p ≡ p
    → trim_space p.external_ref ≡ p.external_ref
unfolding ensure_workflow_defaults
ref_of_ensured p h = ap (λ (x : PaymentIntent). x.external_ref) h

moved-HasTaken :
    (now at : Time) (p : PaymentIntent) (ref next : String)
    → ensure_workflow_defaults p ≡ p
    → IsStatus p.status
    → IsStatus next
    → HasTaken next ref (move_to now p ref next at).0
unfolding move_to
moved-HasTaken now at p ref next h k n =
    let (u, shape) = settle_shape now p ref (resolve_payment_transition p.status next) at in
    let settled = left_status-SettledFor p.status next k n in
    let trimmed : trim_space p.external_ref ≡ p.external_ref = ref_of_ensured p h in
    rw (or_pending_of_IsStatus p.status k, shape)
      (record {
        asked = n.1;
        ensured =
            ensured_with p (left_status p.status next) (left_ref p.external_ref ref) u h
              settled.status (ref_trimmed p.external_ref ref trimmed);
        status = settled.status;
        quiet = settled.quiet;
        ref_quiet = ref_settled p.external_ref ref;
      })

pub transition_provider_state-HasTaken :
    (now at : Time) (p q : PaymentIntent) (ref status : String) (t : PaymentTransition)
    → transition_provider_state now p ref status at ≡ (q, ok t)
    → HasTaken (normalize_payment_status status) ref q
unfolding transition_provider_state
transition_provider_state-HasTaken now at p q ref status t h =
    elim (Bool-cases (normalize_payment_status status == "")) [
      | inl e ↦ absurd (cc (rw e at h))
      | inr e ↦
          let taken =
            moved-HasTaken now at (ensure_workflow_defaults p) ref (normalize_payment_status status)
              (ensure_workflow_defaults_idem p) (ensure_workflow_defaults-IsStatus p)
              (normalize_payment_status_idem status, e) in
          subst (HasTaken (normalize_payment_status status) ref) (cc (rw e at h)) taken
    ]

-- An intent that has taken a report takes it again without a change: no error, the intent as it
-- was, and a transition in which neither the status nor the reference changes.
pub taken_again :
    (now at : Time) (q : PaymentIntent) (ref status : String)
    → HasTaken (normalize_payment_status status) ref q
    → (t : PaymentTransition) × (transition_provider_state now q ref status at ≡ (q, ok t))
      × (t.state_changed ≡ false)
      × (t.external_ref_changed ≡ false)
unfolding transition_provider_state move_to
taken_again now at q ref status h =
    let next = normalize_payment_status status in
    let t = resolve_payment_transition q.status next in
    let still =
      Resolves-ref (normalize_payment_status_or_pending q.status) next t
        (resolve_payment_transition-Resolves q.status next) in
    (
      t,
      rw (
        h.ensured,
        h.asked,
        or_pending_of_IsStatus q.status h.status,
        settle_quiet now q ref t at h.quiet still h.ref_quiet,
      ),
      h.quiet,
      still,
    )

-- A report of a provider that is delivered again does nothing: where the first delivery succeeded,
-- the second one, at any time, succeeds as well, leaves the intent as it is, and reports that
-- neither the status nor the external reference has changed.
pub transition_provider_state_again :
    (now now' at at' : Time) (p q : PaymentIntent) (ref status : String) (t : PaymentTransition)
    → transition_provider_state now p ref status at ≡ (q, ok t)
    → (t' : PaymentTransition) × (transition_provider_state now' q ref status at' ≡ (q, ok t'))
      × (t'.state_changed ≡ false)
      × (t'.external_ref_changed ≡ false)
transition_provider_state_again now now' at at' p q ref status t h =
    taken_again now' at' q ref status (transition_provider_state-HasTaken now at p q ref status t h)
