-- ===== src/Payment/Aggregate/Left.antt =====
-- core/modules/payment/domain/aggregate/payment_intent_aggregate.go: what a transition of the
-- aggregate's intent leaves.
use wechat_clone.Base.{
  ◌≡◌, refl, sym, ap, ◌∙◌, ◌⊎◌, inl, inr, String, true, false, ◌||◌, ◌==◌, Bool-cases,
  if◌then◌else◌, subst,
}
use wechat_clone.Base.Text.{trim_space, trim_space_idem}
use wechat_clone.Base.Time.{Time, time_or_now}
use wechat_clone.Base.Results.{Result, ok, err, Result-cases}
use wechat_clone.Payment.Status.{
  normalize_payment_status, normalize_payment_status_or_pending, PaymentTransition, to_none,
  resolve_payment_transition,
}
use wechat_clone.Payment.Status.Moves.{
  CanMove, Resolves, moves, stays, ignores, resolve_payment_transition-Resolves,
}
use wechat_clone.Payment.Intent.{
  PaymentError, PaymentIntent, PaymentProviderResult, set_external_ref, settle, move_to,
}
use wechat_clone.Payment.Intent.Normal.{normalize_payment_status_idem}
use wechat_clone.Payment.Intent.Settled.{IsStatus, or_pending_of_IsStatus, sets_ref, ref_settled}
use wechat_clone.Payment.Intent.Delivery.{ensure_workflow_defaults-IsStatus, settle_shape}
use wechat_clone.Payment.Intent.Lifetime.{settle_transition}
use wechat_clone.Payment.Aggregate.Entity.{move_intent-eq-move_to}
use wechat_clone.Payment.Aggregate.Records.{
  normalize_snapshot, validate_for_status, transition_intent_state, transition_intent,
}
use wechat_clone.Payment.Aggregate.Entity.{
  stamped, normalize_snapshot-stamped, normalize_snapshot_idem,
}

-- How a transition took the status from one to another.
abbrev pub Moved : String → String → PaymentTransition → Type 0
Moved s s' t =
    ((t.state_changed ≡ true) × CanMove s s' t.transition_type)
    ⊎ ((t.state_changed ≡ false) × (t.transition_type ≡ to_none) × (s' ≡ s))

-- What is left by a report with the reference `ref` at the time `at`, on an intent of status `s`.
pub record Left (now at : Time) (s ref : String) (p : PaymentIntent) (t : PaymentTransition)
    : Type 0 where
  pub trimmed : trim_space p.external_ref ≡ p.external_ref
  pub quiet : sets_ref p.external_ref ref ≡ false
  pub status : IsStatus p.status
  pub current : t.current_status ≡ p.status
  pub stamp : (t.state_changed || t.external_ref_changed) ≡ true → p.updated_at ≡ time_or_now now at
  pub moved : Moved s p.status t

module _ (now at : Time) (p : PaymentIntent) (ref next : String)
    (trimmed : trim_space p.external_ref ≡ p.external_ref) (known : IsStatus p.status)
    (asked : IsStatus next) where
  settle-Left :
      (t : PaymentTransition)
      → Resolves p.status next t
      → let r = settle now p ref t at in Left now at p.status ref r.0 r.1
  unfolding settle set_external_ref
  settle-Left t (moves kind m) = elim (Bool-cases (sets_ref p.external_ref ref)) [
    | inl f ↦ rw f (record {
      trimmed = trim_space_idem ref;
      quiet = rw f at (ref_settled p.external_ref ref);
      status = asked;
      current = refl;
      stamp = λ e. refl;
      moved = inl (refl, m);
    })
    | inr f ↦ rw f (record {
      trimmed = trimmed;
      quiet = f;
      status = asked;
      current = refl;
      stamp = λ e. refl;
      moved = inl (refl, m);
    })
  ]
  settle-Left t (stays same) = elim (Bool-cases (sets_ref p.external_ref ref)) [
    | inl f ↦ rw f (record {
      trimmed = trim_space_idem ref;
      quiet = rw f at (ref_settled p.external_ref ref);
      status = known;
      current = refl;
      stamp = λ e. refl;
      moved = inr (refl, refl, refl);
    })
    | inr f ↦ rw f (record {
      trimmed = trimmed;
      quiet = f;
      status = known;
      current = refl;
      stamp = λ e. absurd (cc e);
      moved = inr (refl, refl, refl);
    })
  ]
  settle-Left t (ignores none_such) = elim (Bool-cases (sets_ref p.external_ref ref)) [
    | inl f ↦ rw f (record {
      trimmed = trim_space_idem ref;
      quiet = rw f at (ref_settled p.external_ref ref);
      status = known;
      current = refl;
      stamp = λ e. refl;
      moved = inr (refl, refl, refl);
    })
    | inr f ↦ rw f (record {
      trimmed = trimmed;
      quiet = f;
      status = known;
      current = refl;
      stamp = λ e. absurd (cc e);
      moved = inr (refl, refl, refl);
    })
  ]

  move_to-Left : let r = move_to now p ref next at in Left now at p.status ref r.0 r.1
  unfolding move_to
  move_to-Left =
      let same = or_pending_of_IsStatus p.status known in
      rw same (
        settle-Left (resolve_payment_transition p.status next)
          (rw same at (resolve_payment_transition-Resolves p.status next)))

normalize_snapshot_ref :
    (now : Time) (p : PaymentIntent)
    → trim_space (normalize_snapshot now p).external_ref ≡ (normalize_snapshot now p).external_ref
unfolding normalize_snapshot
normalize_snapshot_ref now p = trim_space_idem p.external_ref

pub normalize_snapshot-IsStatus :
    (now : Time) (p : PaymentIntent) → IsStatus (normalize_snapshot now p).status
normalize_snapshot-IsStatus now p =
    rw (normalize_snapshot-stamped now p) (ensure_workflow_defaults-IsStatus (stamped now p))

pub transition_intent_state-Left :
    (now at : Time) (p q : PaymentIntent) (ref status : String) (t : PaymentTransition)
    → transition_intent_state now p ref status at ≡ (q, ok t)
    → Left now at (normalize_snapshot now p).status ref q t
unfolding transition_intent_state
transition_intent_state-Left now at p q ref status t h =
    elim (Bool-cases (normalize_payment_status status == "")) [
      | inl e ↦ absurd (cc (rw e at h))
      | inr e ↦
          let start = normalize_snapshot now p in
          let moved = move_to now start ref (normalize_payment_status status) at in
          let left =
            move_to-Left now at start ref (normalize_payment_status status)
              (normalize_snapshot_ref now p) (normalize_snapshot-IsStatus now p)
              (normalize_payment_status_idem status, e) in
          let done : ◌≡◌ {A = PaymentIntent × Result PaymentError PaymentTransition}
              (moved.0, ok moved.1) (q, ok t) =
            rw (e, move_intent-eq-move_to now at start ref (normalize_payment_status status)) at
              h in
          let same : moved.0 ≡ q = cc done in
          let told : moved.1 ≡ t = cc done in
          subst (λ (x : PaymentTransition). Left now at start.status ref q x) told
            (subst (λ (x : PaymentIntent). Left now at start.status ref x moved.1) same left)
    ]

pub transition_intent-Left :
    (now at : Time) (p q : PaymentIntent) (result : PaymentProviderResult) (t : PaymentTransition)
    → transition_intent now p result at ≡ (q, ok t)
    → Left now at (normalize_snapshot now p).status result.external_ref q t
unfolding transition_intent
transition_intent-Left now at p q result t h =
    let start = normalize_snapshot now p in
    let next = normalize_payment_status_or_pending result.status in
    elim (Result-cases (validate_for_status start next result.amount result.currency)) [
      | inl (_, e) ↦ rw (normalize_snapshot_idem now p) at (
          transition_intent_state-Left now at start q result.external_ref next t
            (rw (e, transition_intent) at h))
      | inr (x, e) ↦ absurd (cc (rw (e, transition_intent) at h))
    ]

pub transition_intent_state-err :
    (now at : Time) (p q : PaymentIntent) (ref status : String) (x : PaymentError)
    → transition_intent_state now p ref status at ≡ (q, err x)
    → normalize_snapshot now p ≡ q
unfolding transition_intent_state
transition_intent_state-err now at p q ref status x h =
    elim (Bool-cases (normalize_payment_status status == "")) [
      | inl e ↦ cc (rw e at h)
      | inr e ↦ absurd (cc (rw e at h))
    ]

-- A transition that fails leaves the normalised snapshot.
pub transition_intent-err :
    (now at : Time) (p q : PaymentIntent) (result : PaymentProviderResult) (x : PaymentError)
    → transition_intent now p result at ≡ (q, err x)
    → normalize_snapshot now p ≡ q
unfolding transition_intent
transition_intent-err now at p q result x h =
    let start = normalize_snapshot now p in
    let next = normalize_payment_status_or_pending result.status in
    elim (Result-cases (validate_for_status start next result.amount result.currency)) [
      | inl (_, e) ↦ rw (normalize_snapshot_idem now p) at (
          transition_intent_state-err now at start q result.external_ref next x
            (rw (e, transition_intent) at h))
      | inr (y, e) ↦ cc (rw (e, transition_intent) at h)
    ]

-- Where the status has changed it is the one asked for.
settle_reached :
    (now at : Time) (p : PaymentIntent) (ref next : String) (t : PaymentTransition)
    → Resolves p.status next t
    → let r = settle now p ref t at in r.1.state_changed ≡ true → r.0.status ≡ next
settle_reached now at p ref next t h =
    let (u, shape) = settle_shape now p ref t at in
    let (same, _) = settle_transition now at p ref t in rw (shape, same) (reached t h)
  where
    reached :
        (t : PaymentTransition)
        → Resolves p.status next t
        → t.state_changed ≡ true
        → (if t.state_changed then t.current_status else p.status) ≡ next
    reached _ (moves kind m) e = refl
    reached _ (stays same) e = absurd (cc e)
    reached _ (ignores none_such) e = absurd (cc e)

pub transition_intent_state_reached :
    (now at : Time) (p q : PaymentIntent) (ref status : String) (t : PaymentTransition)
    → transition_intent_state now p ref status at ≡ (q, ok t)
    → t.state_changed ≡ true
    → q.status ≡ normalize_payment_status status
unfolding transition_intent_state move_to
transition_intent_state_reached now at p q ref status t h k =
    elim (Bool-cases (normalize_payment_status status == "")) [
      | inl e ↦ absurd (cc (rw e at h))
      | inr e ↦
          let start = normalize_snapshot now p in
          let next = normalize_payment_status status in
          let known = or_pending_of_IsStatus start.status (normalize_snapshot-IsStatus now p) in
          let resolved =
            resolve_payment_transition (normalize_payment_status_or_pending start.status) next in
          let moved = settle now start ref resolved at in
          let done : ◌≡◌ {A = PaymentIntent × Result PaymentError PaymentTransition}
              (moved.0, ok moved.1) (q, ok t) =
            rw (e, move_intent-eq-move_to now at start ref (normalize_payment_status status)) at
              h in
          let same : moved.0 ≡ q = cc done in
          let told : moved.1 ≡ t = cc done in
          let reached =
            settle_reached now at start ref next resolved
              (rw known (rw known at (resolve_payment_transition-Resolves start.status next))) in
          ap (λ (x : PaymentIntent). x.status) (sym same)
          ∙ reached (ap (λ (x : PaymentTransition). x.state_changed) told ∙ k)
    ]
