-- ===== src/Payment/Aggregate/Entity.antt =====
-- core/modules/payment/domain/aggregate/payment_intent_aggregate.go repeats the state machine of
-- core/modules/payment/domain/entity/payment_intent_behavior.go: the two agree.
use wechat_clone.Base.{
  ◌≡◌, refl, ap, ◌∙◌, inl, inr, String, Bool, true, false, ◌==◌, ◌||◌, if◌then◌else◌, arith,
}
use wechat_clone.Base.Int.{ℤ}
use wechat_clone.Base.Time.{Time, time_or_now}
use wechat_clone.Base.Results.{Result-cases}
use wechat_clone.Payment.Status.{
  normalize_payment_status, normalize_payment_status_or_pending, PaymentTransition, unchanged,
  switch_status, resolve_payment_transition, failed, cancelled, refunded, chargeback,
}
use wechat_clone.Payment.Intent.{
  PaymentIntent, PaymentProviderResult, set_external_ref, settle, move_to, ensure_workflow_defaults,
  effective_clearing_account_key, provider_clearing_account_key, transition_provider_state,
  transition_provider_result, validate_provider_result_for_status,
}
use wechat_clone.Payment.Intent.Normal.{ensure_workflow_defaults_idem}
use wechat_clone.Payment.Aggregate.{effective_clearing_key, provider_clearing_key}
use wechat_clone.Payment.Aggregate.Machine.{
  from_creating_to, from_pending_to, from_success_to, switch_intent_status,
  resolve_intent_transition, write_intent, move_intent,
}
use wechat_clone.Payment.Aggregate.Records.{
  normalize_snapshot, validate_for_status, transition_intent_state, transition_intent,
}

-- The intent with the clock's time where it has none.
abbrev pub stamped : Time → PaymentIntent → PaymentIntent
stamped now p = record p {
  created_at = time_or_now now p.created_at;
  updated_at = time_or_now now p.updated_at;
}

time_or_now_idem : (now t : Time) → time_or_now now (time_or_now now t) ≡ time_or_now now t
time_or_now_idem now t = ground arith

pub normalize_snapshot-stamped :
    (now : Time) (p : PaymentIntent)
    → normalize_snapshot now p ≡ ensure_workflow_defaults (stamped now p)
unfolding normalize_snapshot ensure_workflow_defaults effective_clearing_key provider_clearing_key
    effective_clearing_account_key provider_clearing_account_key
normalize_snapshot-stamped now p = refl

stamped_again :
    (now : Time) (p : PaymentIntent)
    → stamped now (ensure_workflow_defaults (stamped now p))
      ≡ ensure_workflow_defaults (stamped now p)
unfolding ensure_workflow_defaults
stamped_again now p = rw (time_or_now_idem now p.created_at, time_or_now_idem now p.updated_at)

pub normalize_snapshot_idem :
    (now : Time) (p : PaymentIntent)
    → normalize_snapshot now (normalize_snapshot now p) ≡ normalize_snapshot now p
normalize_snapshot_idem now p =
    rw
      (
        normalize_snapshot-stamped now p,
        normalize_snapshot-stamped now (ensure_workflow_defaults (stamped now p)),
        stamped_again now p,
      )
      (ensure_workflow_defaults_idem (stamped now p))

same_both : {A : Type 0} (b : Bool) (x : A) → (if b then x else x) ≡ x
same_both true x = refl
same_both false x = refl

switch_agrees : (s next : String) → switch_intent_status (unchanged s) next ≡ switch_status s next
unfolding switch_intent_status from_creating_to from_pending_to from_success_to switch_status
switch_agrees s next =
    rw
      (same_both (s == failed || s == cancelled || s == refunded || s == chargeback)
        (record (unchanged s) { ignored = true }))
      refl

-- The aggregate's own resolution of a transition is the entity's.
resolve_agrees :
    (previous next : String)
    → resolve_intent_transition previous next ≡ resolve_payment_transition previous next
unfolding resolve_intent_transition resolve_payment_transition
resolve_agrees previous next =
    rw (switch_agrees (normalize_payment_status_or_pending previous) next) refl

write_agrees :
    (now at : Time) (p : PaymentIntent) (ref : String) (t : PaymentTransition)
    → write_intent now p ref t at ≡ settle now p ref t at
unfolding write_intent settle set_external_ref
write_agrees now at p ref t = ground arith

-- So are the writes that follow it.
pub move_intent-eq-move_to :
    (now at : Time) (p : PaymentIntent) (ref next : String)
    → move_intent now p ref next at ≡ move_to now p ref next at
unfolding move_intent move_to
move_intent-eq-move_to now at p ref next =
    rw (resolve_agrees (normalize_payment_status_or_pending p.status) next) (
      write_agrees now at p ref
        (resolve_payment_transition (normalize_payment_status_or_pending p.status) next))

transition_intent_state-stamped :
    (now at : Time) (p : PaymentIntent) (ref status : String)
    → transition_intent_state now p ref status at
      ≡ transition_provider_state now (stamped now p) ref status at
unfolding transition_intent_state transition_provider_state
transition_intent_state-stamped now at p ref status =
    let next = normalize_payment_status status in
    rw
      (
        normalize_snapshot-stamped now p,
        move_intent-eq-move_to now at (ensure_workflow_defaults (stamped now p)) ref next,
      )
      refl

validate_agrees :
    (p : PaymentIntent) (status : String) (amount : ℤ) (currency : String)
    → validate_for_status p status amount currency
      ≡ validate_provider_result_for_status p status amount currency
unfolding validate_for_status validate_provider_result_for_status
    normalize_payment_status_or_pending
validate_agrees p status amount currency = ground arith

-- The aggregate's transition of its intent is the entity's, for any intent and any report, up to
-- the times that are not set, for which the aggregate takes the clock's.
pub transition_intent-eq-transition_provider_result :
    (now at : Time) (p : PaymentIntent) (result : PaymentProviderResult)
    → transition_intent now p result at ≡ transition_provider_result now (stamped now p) result at
unfolding transition_intent transition_provider_result
transition_intent-eq-transition_provider_result now at p result =
    let q = ensure_workflow_defaults (stamped now p) in
    let next = normalize_payment_status_or_pending result.status in
    let again : normalize_snapshot now q ≡ q =
      normalize_snapshot-stamped now q
      ∙ ap ensure_workflow_defaults (stamped_again now p)
      ∙ ensure_workflow_defaults_idem (stamped now p) in
    let inner : transition_intent_state now q result.external_ref next at
        ≡ transition_provider_state now q result.external_ref next at =
      transition_intent_state-stamped now at q result.external_ref next
      ∙ ap (λ (x : PaymentIntent). transition_provider_state now x result.external_ref next at)
          (stamped_again now p) in
    let agreed = validate_agrees q next result.amount result.currency in
    elim (Result-cases (validate_provider_result_for_status q next result.amount result.currency)) [
      | inl (_, e) ↦
          rw
            (
              normalize_snapshot-stamped now p,
              agreed,
              e,
              transition_intent,
              transition_provider_result,
              normalize_snapshot-stamped now p,
            )
            inner
      | inr (x, e) ↦
          rw
            (
              normalize_snapshot-stamped now p,
              agreed,
              e,
              transition_intent,
              transition_provider_result,
              normalize_snapshot-stamped now p,
            )
            refl
    ]
