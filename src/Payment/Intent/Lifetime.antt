-- ===== src/Payment/Intent/Lifetime.antt =====
-- core/modules/payment/domain/entity/payment_intent_behavior.go: how often the status of a payment
-- intent can change, and in which steps.
use wechat_clone.Base.{
  ℕ, suc, ◌≤◌, ◌≡◌, refl, inl, inr, ◌⊎◌, String, true, false, arith, subst, if◌then◌else◌,
  Bool-cases, ◌==◌,
}
use wechat_clone.Base.Time.{Time}
use wechat_clone.Base.Results.{Result, ok, err}
use wechat_clone.Payment.Status.{
  normalize_payment_status, normalize_payment_status_or_pending, PaymentTransition,
  resolve_payment_transition,
}
use wechat_clone.Payment.Status.Moves.{
  Resolves, moves, stays, ignores, CanMove, CanMove-rank, rank, resolve_payment_transition-Resolves,
}
use wechat_clone.Payment.Intent.{
  PaymentIntent, PaymentError, ensure_workflow_defaults, set_external_ref, settle, move_to,
  transition_provider_state,
}
use wechat_clone.Payment.Intent.Normal.{ensure_workflow_defaults_idem}
use wechat_clone.Payment.Intent.Settled.{or_pending_of_IsStatus, sets_ref}
use wechat_clone.Payment.Intent.Delivery.{
  settle_shape, ensure_workflow_defaults-IsStatus, transition_provider_state-HasTaken,
}

-- What a transition says of the status before and after it.
abbrev pub Follows : String → String → PaymentTransition → Type 0
Follows s s' t =
    ((t.state_changed ≡ true) × CanMove s s' t.transition_type)
    ⊎ ((t.state_changed ≡ false) × (s' ≡ s))

Resolves-Follows :
    (s next : String) (t : PaymentTransition)
    → Resolves s next t
    → Follows s (if t.state_changed then t.current_status else s) t
Resolves-Follows s next _ (moves kind m) = inl (refl, m)
Resolves-Follows s next _ (stays _) = inr (refl, refl)
Resolves-Follows s next _ (ignores _) = inr (refl, refl)

-- The transition that is returned says the same as the one resolved, but for the reference.
set_external_ref_transition :
    (q : PaymentIntent) (ref : String) (t : PaymentTransition)
    → let r = set_external_ref q ref t in
      (r.1.state_changed ≡ t.state_changed) × (r.1.transition_type ≡ t.transition_type)
unfolding set_external_ref
set_external_ref_transition q ref t = elim (Bool-cases (sets_ref q.external_ref ref)) [
  | inl f ↦ rw f (refl, refl)
  | inr f ↦ rw f (refl, refl)
]

pub settle_transition :
    (now at : Time) (p : PaymentIntent) (ref : String) (t : PaymentTransition)
    → let r = settle now p ref t at in
      (r.1.state_changed ≡ t.state_changed) × (r.1.transition_type ≡ t.transition_type)
unfolding settle
settle_transition now at p ref t =
    set_external_ref_transition
      (if t.state_changed then record p { status = t.current_status } else p) ref t

settle-Follows :
    (now at : Time) (p : PaymentIntent) (ref : String) (t : PaymentTransition)
    → Follows p.status (if t.state_changed then t.current_status else p.status) t
    → let r = settle now p ref t at in Follows p.status r.0.status r.1
settle-Follows now at p ref t h =
    let (u, shape) = settle_shape now p ref t at in
    let (same, kind) = settle_transition now at p ref t in rw (shape, same, kind) h

-- A call that succeeds takes the status (as the defaults make it) along an edge of the graph and
-- says so; or it keeps the status and says that.
pub transition_provider_state-Follows :
    (now at : Time) (p q : PaymentIntent) (ref status : String) (t : PaymentTransition)
    → transition_provider_state now p ref status at ≡ (q, ok t)
    → Follows (ensure_workflow_defaults p).status q.status t
unfolding transition_provider_state move_to
transition_provider_state-Follows now at p q ref status t h =
    elim (Bool-cases (normalize_payment_status status == "")) [
      | inl e ↦ absurd (cc (rw e at h))
      | inr e ↦
          let start = ensure_workflow_defaults p in
          let next = normalize_payment_status status in
          let known = or_pending_of_IsStatus start.status (ensure_workflow_defaults-IsStatus p) in
          let resolved =
            resolve_payment_transition (normalize_payment_status_or_pending start.status) next in
          let moved = settle now start ref resolved at in
          let follows : Follows start.status moved.0.status moved.1 =
            settle-Follows now at start ref resolved (
              rw known (
                Resolves-Follows start.status next (resolve_payment_transition start.status next)
                  (rw known at (resolve_payment_transition-Resolves start.status next)))) in
          let done : ◌≡◌ {A = PaymentIntent × Result PaymentError PaymentTransition}
              (moved.0, ok moved.1) (q, ok t) =
            rw e at h in
          let same : moved.0 ≡ q = cc done in
          let told : moved.1 ≡ t = cc done in
          subst (λ (x : PaymentTransition). Follows start.status q.status x) told
            (subst (λ (x : PaymentIntent). Follows start.status x.status moved.1) same follows)
    ]

-- Any calls of the methods that change the status, each one successful or not, and how many of
-- them changed it.
pub data Delivered (p : PaymentIntent) : ℕ → PaymentIntent → Type 0 where
  start : Delivered p 0 p
  after :
      {n : ℕ} {q r : PaymentIntent} (now at : Time) (ref status : String) (t : PaymentTransition)
      → Delivered p n q
      → transition_provider_state now q ref status at ≡ (r, ok t)
      → Delivered p (if t.state_changed then suc n else n) r
  refused :
      {n : ℕ} {q r : PaymentIntent} (now at : Time) (ref status : String) (e : PaymentError)
      → Delivered p n q
      → transition_provider_state now q ref status at ≡ (r, err e)
      → Delivered p n r

Follows-rank :
    (s s' : String) (t : PaymentTransition) (n : ℕ)
    → Follows s s' t
    → n ≤ rank s
    → (if t.state_changed then suc n else n) ≤ rank s'
Follows-rank s s' t n (inl (e, m)) h =
    rw e (omega (arith, h, CanMove-rank s s' t.transition_type m))
Follows-rank s s' t n (inr (e, f)) h = rw (e, f) h

pub refused_ensured :
    (now at : Time) (q r : PaymentIntent) (ref status : String) (x : PaymentError)
    → transition_provider_state now q ref status at ≡ (r, err x)
    → ensure_workflow_defaults q ≡ r
unfolding transition_provider_state
refused_ensured now at q r ref status x h =
    elim (Bool-cases (normalize_payment_status status == "")) [
      | inl e ↦ cc (rw e at h)
      | inr e ↦ absurd (cc (rw e at h))
    ]

Delivered-rank :
    {p q : PaymentIntent} {n : ℕ} → Delivered p n q → n ≤ rank (ensure_workflow_defaults q).status
Delivered-rank start = omega arith
Delivered-rank (after {n} {q} {r} now at ref status t before done) =
    rw (transition_provider_state-HasTaken now at q r ref status t done).ensured (
      Follows-rank (ensure_workflow_defaults q).status r.status t n
        (transition_provider_state-Follows now at q r ref status t done) (Delivered-rank before))
Delivered-rank (refused {n} {q} now at ref status e before done) =
    rw (← refused_ensured now at q _ ref status e done, ensure_workflow_defaults_idem q)
      (Delivered-rank before)

rank_bounded : (s : String) → rank s ≤ 3
rank_bounded s = ground arith

-- However many calls a payment intent receives, its status changes at most three times.
pub status_changes_bounded : {p q : PaymentIntent} {n : ℕ} → Delivered p n q → n ≤ 3
status_changes_bounded {q = q} d =
    omega (arith, Delivered-rank d, rank_bounded (ensure_workflow_defaults q).status)
