-- ===== src/Payment/Aggregate/Exactly.antt =====
-- core/modules/payment/domain/aggregate/payment_intent_aggregate.go: ApplyProviderOutcome on a
-- report of success, for a payment that is still open.
use wechat_clone.Base.{
  ℕ, ◌+◌, ◌≡◌, refl, sym, ap, ◌∙◌, inl, inr, ◌⊎◌, String, Bool, false, ◌==◌, Bool-cases,
  if◌then◌else◌, subst,
}
use wechat_clone.Base.Text.{trim_space, to_upper, trim_space_idem}
use wechat_clone.Base.Text.Case.{upper_trimmed, lower_trimmed, trim_space-lower_trimmed}
use wechat_clone.Base.Time.{Time, is_zero}
use wechat_clone.Base.Results.{Result, ok}
use wechat_clone.Payment.Status.{
  creating, pending, success, normalize_payment_status, normalize_payment_status_or_pending,
  PaymentTransition, PaymentTransitionType, changed, to_succeeded, resolve_payment_transition,
}
use wechat_clone.Payment.Intent.{
  PaymentIntent, PaymentProviderResult, set_external_ref, settle, move_to,
}
use wechat_clone.Payment.Intent.Settled.{sets_ref}
use wechat_clone.Payment.Intent.Delivery.{settle_shape}
use wechat_clone.Payment.Intent.Lifetime.{settle_transition}
use wechat_clone.Payment.Aggregate.{PaymentAggregate, AggregateError, ◌>>=◌}
use wechat_clone.Payment.Aggregate.Entity.{move_intent-eq-move_to}
use wechat_clone.Payment.Aggregate.Records.{
  normalize_snapshot, validate_for_status, with_intent, transition_intent, transition_intent_state,
  transition_result,
}
use wechat_clone.Payment.Aggregate.Commands.{
  Mutation, is_persisted, choose_success, apply_repeated_success, after_success,
  apply_successful_outcome, apply_provider_outcome,
}
use wechat_clone.Payment.Aggregate.Entity.{normalize_snapshot_idem}
use wechat_clone.Payment.Aggregate.Sound.{credits}
use wechat_clone.Payment.Aggregate.Ready.{put}
use wechat_clone.Payment.Aggregate.Steady.{standing, Transitioned}
use wechat_clone.Payment.Aggregate.Credited.{Credited, Fresh, success_succeeds}

-- A payment that waits for its provider.
abbrev pub IsOpen : String → Type 0
IsOpen s = (s ≡ creating) ⊎ (s ≡ pending)

success_status : normalize_payment_status success ≡ success
unfolding normalize_payment_status upper_trimmed trim_space to_upper
success_status = refl

success_resolved :
    (s : String)
    → IsOpen s
    → resolve_payment_transition (normalize_payment_status_or_pending s) success
      ≡ changed s success to_succeeded
unfolding resolve_payment_transition normalize_payment_status_or_pending normalize_payment_status
    upper_trimmed trim_space to_upper
success_resolved s (inl e) = rw e refl
success_resolved s (inr e) = rw e refl

set_external_ref_ignored :
    (q : PaymentIntent) (ref : String) (t : PaymentTransition)
    → (set_external_ref q ref t).1.ignored ≡ t.ignored
unfolding set_external_ref
set_external_ref_ignored q ref t = elim (Bool-cases (sets_ref q.external_ref ref)) [
  | inl f ↦ rw f refl
  | inr f ↦ rw f refl
]

settle_ignored :
    (now at : Time) (p : PaymentIntent) (ref : String) (t : PaymentTransition)
    → (settle now p ref t at).1.ignored ≡ t.ignored
unfolding settle
settle_ignored now at p ref t =
    set_external_ref_ignored (if t.state_changed then record p { status = t.current_status } else p)
      ref t

-- An intent that has taken a success, and what is kept of the one before.
pub record Took (p q : PaymentIntent) (t : PaymentTransition) : Type 0 where
  pub succeeded : t.transition_type ≡ to_succeeded
  pub heeded : t.ignored ≡ false
  pub provider : q.provider ≡ p.provider
  pub transaction_id : q.transaction_id ≡ p.transaction_id

success_taken :
    (now at : Time) (p : PaymentIntent) (ref : String)
    → IsOpen (normalize_snapshot now p).status
    → (q : PaymentIntent) × (t : PaymentTransition) × (transition_intent_state now p ref success at
        ≡ (q, ok t))
      × Took (normalize_snapshot now p) q t
unfolding transition_intent_state move_to
success_taken now at p ref open_now =
    let start = normalize_snapshot now p in
    let t = changed start.status success to_succeeded in
    let moved = settle now start ref t at in
    let (u, shape) = settle_shape now start ref t at in
    let (_, kind) = settle_transition now at start ref t in
    let run : transition_intent_state now p ref success at ≡ (moved.0, ok moved.1) =
      rw
        (
          success_status,
          move_intent-eq-move_to now at start ref success,
          success_resolved start.status open_now,
        )
        refl in
    (
      moved.0,
      moved.1,
      run,
      record {
        succeeded = kind;
        heeded = settle_ignored now at start ref t;
        provider = ap (λ (x : PaymentIntent). x.provider) shape;
        transaction_id = ap (λ (x : PaymentIntent). x.transaction_id) shape;
      },
    )

or_pending_success :
    (s : String)
    → normalize_payment_status s ≡ success
    → normalize_payment_status_or_pending s ≡ success
unfolding normalize_payment_status_or_pending
or_pending_success s h = rw h refl

report_taken :
    (now at : Time) (p : PaymentIntent) (result : PaymentProviderResult)
    → IsOpen (normalize_snapshot now p).status
    → normalize_payment_status result.status ≡ success
    → validate_for_status (normalize_snapshot now p) success result.amount result.currency ≡ ok tt
    → (q : PaymentIntent) × (t : PaymentTransition) × (transition_intent now p result at
        ≡ (q, ok t))
      × Took (normalize_snapshot now p) q t
unfolding transition_intent
report_taken now at p result open_now h fits =
    let start = normalize_snapshot now p in
    let again = normalize_snapshot_idem now p in
    let (q, t, run, took) =
      success_taken now at start result.external_ref
        (subst (λ (x : PaymentIntent). IsOpen x.status) (sym again) open_now) in
    (
      q,
      t,
      rw
          (
            or_pending_success result.status h,
            fits,
            transition_intent,
            or_pending_success result.status h,
          )
          run,
      subst (λ (x : PaymentIntent). Took x q t) again took,
    )

module _ (now at : Time) (a : PaymentAggregate) (result : PaymentProviderResult) (url : String)
    (emit : Bool) where
  -- The command on a transition that is known.
  after_taken :
      (q : PaymentIntent) (t : PaymentTransition) (n : ℕ)
      → transition_intent now a.state.intent result at ≡ (q, ok t)
      → t.transition_type ≡ to_succeeded
      → t.ignored ≡ false
      → Fresh n (put a q)
      → let r = apply_successful_outcome now result url emit at a in
        (r.1 ≡ ok is_persisted) × Credited (n + 1) r.0
  unfolding apply_successful_outcome transition_result
  after_taken q t n run kind heeded fresh =
      let (m, done, (same, counted)) = success_succeeds now at n result url emit (put a q) fresh in
      let Good = λ (r : PaymentAggregate × Result AggregateError Mutation).
        (r.1 ≡ ok is_persisted) × Credited (n + 1) r.0 in
      let chosen =
        subst
          (λ (k : PaymentTransitionType).
            Good (choose_success now k t result url emit at (put a q)))
          (sym kind) (done ∙ ap (λ y. ok y) same, counted) in
      let heard =
        subst
          (λ (b : Bool). Good (
            (if b
                then apply_repeated_success now t result url emit at
                else choose_success now t.transition_type t result url emit at)
              (put a q)))
          (sym heeded) chosen in
      subst
        (λ (x : Transitioned).
          Good (((λ _. with_intent a x) >>= after_success now result url emit at) a))
        (sym run) heard

module _ (now at : Time) (a : PaymentAggregate) (result : PaymentProviderResult) (url : String)
    (emit : Bool) where
  -- A report of success with a time, whose amount and currency fit a payment that is still open and
  -- has a provider and an identifier, is recorded: ApplyProviderOutcome succeeds, says that the
  -- payment is to be persisted and is no duplicate, and adds exactly one event of a success.
  pub success_is_credited :
      (a.root.aggregate_id == "") ≡ false
      → IsOpen (standing a.state.intent)
      → (lower_trimmed a.state.intent.provider == "") ≡ false
      → (trim_space a.state.intent.transaction_id == "") ≡ false
      → is_zero at ≡ false
      → normalize_payment_status result.status ≡ success
      → validate_for_status
          (normalize_snapshot now a.state.intent)
          success
          result.amount
          result.currency
        ≡ ok tt
      → let r = apply_provider_outcome now result url emit at a in
        (r.1 ≡ ok is_persisted) × (credits r.0.root.events ≡ credits a.root.events + 1)
  unfolding apply_provider_outcome normalize_snapshot
  success_is_credited i open_now provider id timed h fits =
      let p = a.state.intent in
      let (q, t, run, took) = report_taken now at p result open_now h fits in
      let known : (trim_space q.provider == "") ≡ false =
        rw (took.provider, trim_space-lower_trimmed p.provider) provider in
      let named : (trim_space q.transaction_id == "") ≡ false =
        rw (took.transaction_id, trim_space_idem p.transaction_id) id in
      let (done, (_, counted)) =
        after_taken now at a result url emit q t (credits a.root.events) run took.succeeded
          took.heeded ((i, refl), known, named) in
      rw (timed, h) (done, counted)
