-- ===== src/Payment/Aggregate/Credited.antt =====
-- core/modules/payment/domain/aggregate/payment_intent_aggregate.go: a report of success that fits
-- an open payment is recorded: ApplyProviderOutcome succeeds and credits the payment.
use wechat_clone.Base.{
  ℕ, ◌+◌, ◌≡◌, refl, inl, inr, String, Bool, false, not, ◌||◌, ◌==◌, arith, subst, Bool-cases, [],
  ◌∷◌,
}
use Prim.Native.String.{◌++◌}
use wechat_clone.Base.Text.{trim_space, concat, is_space, trim_space_idem}
use wechat_clone.Base.Text.Append.{trim_space-append, append_nonempty}
use text.Mathlib.TextLemmas.{append-nil}
use wechat_clone.Base.Time.{Time}
use wechat_clone.Base.Results.{Result, ok, err}
use wechat_clone.Event.{apply_change, append_and_transition, new_event}
use wechat_clone.Payment.Intent.{PaymentIntent, PaymentProviderResult, ProcessedPaymentEvent}
use wechat_clone.Payment.Events.{
  PaymentEvent, checkout_session_created, payment_succeeded, succeeded_name, payment_event_name,
}
use wechat_clone.Payment.Aggregate.{
  PaymentAggregate, AggregateError, Step, ◌>>=◌, ◌>>◌, return, apply_change_at, checkout_of,
  outcome_of, payment_transition, current_provider_result, new_processed_payment_event,
  new_processed_transition_event, record_processed_event, transition_idempotency_key,
}
use wechat_clone.Payment.Aggregate.Records.{
  record_checkout_session_event, record_payment_succeeded, should_emit_checkout_session_created,
}
use wechat_clone.Payment.Aggregate.Commands.{Mutation, is_persisted, apply_success}
use wechat_clone.Payment.Aggregate.Sound.{
  credit, credits, credits-append, named, apply_change_at-logged,
}

-- A step that succeeds, with what holds then of its value and the aggregate.
abbrev Succeeds :
    {A : Type 0} → (PaymentAggregate → Type 0) → Step A → (A → PaymentAggregate → Type 0) → Type 0
Succeeds {A} P m Q = (a : PaymentAggregate) → P a → (x : A) × ((m a).1 ≡ ok x) × Q x (m a).0

bind-Succeeds :
    {A B : Type 0} (P : PaymentAggregate → Type 0) (Q : A → PaymentAggregate → Type 0)
    (R : B → PaymentAggregate → Type 0) (m : Step A) (f : A → Step B)
    → Succeeds P m Q
    → ((x : A) → Succeeds (Q x) (f x) R)
    → Succeeds P (m >>= f) R
bind-Succeeds {A} {B} P Q R m f first rest a h = go (m a).1 (first a h)
  where
    go :
        (y : Result AggregateError A)
        → (x : A) × (y ≡ ok x) × Q x (m a).0
        → let r = elim y as (λ _. PaymentAggregate × Result AggregateError B) [
          | err e ↦ ((m a).0, err e)
          | ok x ↦ f x (m a).0
        ] in
          (z : B) × (r.1 ≡ ok z) × R z r.0
    go (err e) (x, q, k) = absurd (cc q)
    go (ok y) (x, q, k) = rest y (m a).0 (subst (λ z. Q z (m a).0) (cc q) k)

-- An aggregate with an identifier and a number of credits.
abbrev pub Credited : ℕ → PaymentAggregate → Type 0
Credited n a = ((a.root.aggregate_id == "") ≡ false) × (credits a.root.events ≡ n)

apply_change_at_ok :
    (now : Time) (a : PaymentAggregate) (d : PaymentEvent)
    → (a.root.aggregate_id == "") ≡ false
    → (apply_change_at now d a).1 ≡ ok tt
unfolding apply_change_at apply_change append_and_transition payment_transition new_event
apply_change_at_ok now a d h = rw (h, named d) refl

record-Credited :
    (now : Time) (a : PaymentAggregate) (d : PaymentEvent) (n : ℕ)
    → Credited n a
    → Credited (n + credit d) (apply_change_at now d a).0
unfolding new_event
record-Credited now a d n (i, k) =
    rw (apply_change_at-logged now a d i) (
      i,
      omega (arith, credits-append a.root.events (new_event payment_event_name a.root d ∷ []), k),
    )

module _ (now at : Time) (n : ℕ) (result : PaymentProviderResult) (url : String) (emit : Bool) where
  checkout_succeeds :
      Succeeds (Credited n) (record_checkout_session_event now url emit at) (λ _. Credited n)
  unfolding record_checkout_session_event
  checkout_succeeds a h =
      elim (Bool-cases
        (not emit || not (should_emit_checkout_session_created now a.state.intent url))) [
          | inl e ↦ rw e (tt, refl, h)
          | inr e ↦
              let d = checkout_session_created (checkout_of a.state.intent url at) in
              let after : Credited n (apply_change_at now d a).0 =
                ((record-Credited now a d n h).0, omega (arith, (record-Credited now a d n h).1)) in
              rw e (tt, apply_change_at_ok now a d h.0, after)
        ]

  ends_persisted :
      Succeeds
        (Credited n)
        (record_checkout_session_event now url emit at >> return is_persisted)
        (λ m a. (m ≡ is_persisted) × Credited n a)
  ends_persisted =
      bind-Succeeds (Credited n) (λ _. Credited n) (λ m a. (m ≡ is_persisted) × Credited n a)
        (record_checkout_session_event now url emit at) (λ _. return is_persisted) checkout_succeeds
        (λ _ a h. (is_persisted, refl, (refl, h)))

-- Beside it, the provider and the identifier that a processed event needs.
abbrev pub Fresh : ℕ → PaymentAggregate → Type 0
Fresh n a =
    Credited n a
    × ((trim_space a.state.intent.provider == "") ≡ false)
    × ((trim_space a.state.intent.transaction_id == "") ≡ false)

module _ (now at : Time) (n : ℕ) (result : PaymentProviderResult) (url : String) (emit : Bool) where
  success_recorded :
      Succeeds
        (Credited n)
        (λ a. record_payment_succeeded now (current_provider_result a.state.intent result) at a)
        (λ _. Credited (n + 1))
  unfolding record_payment_succeeded
  success_recorded a h =
      let p = a.state.intent in
      let d =
        payment_succeeded (outcome_of p (current_provider_result p result) p.amount at)
          (transition_idempotency_key p succeeded_name) in
      (tt, apply_change_at_ok now a d h.0, record-Credited now a d n h)

trimmed_name : trim_space succeeded_name ≡ succeeded_name
unfolding trim_space is_space
trimmed_name = refl

-- The key of the processed event is not blank.
key_known :
    (p : PaymentIntent)
    → (trim_space p.transaction_id == "") ≡ false
    → (trim_space (transition_idempotency_key p succeeded_name) == "") ≡ false
unfolding transition_idempotency_key concat is_space
key_known p h =
    let id = trim_space p.transaction_id in
    let tail = trim_space-append ":" "" id refl (trim_space_idem p.transaction_id) h in
    let tail_known = append_nonempty ":" id h in
    rw
      (
        trimmed_name,
        append-nil id,
        trim_space-append "P" "aymentSucceededEvent" (":" ++ id) refl tail tail_known,
      )
      (append_nonempty "PaymentSucceededEvent" (":" ++ id) tail_known)

new_processed_ok :
    (now : Time) (provider key id : String) (at : Time)
    → (trim_space provider == "") ≡ false
    → (trim_space key == "") ≡ false
    → (trim_space id == "") ≡ false
    → (x : ProcessedPaymentEvent) × (new_processed_payment_event now provider key id at ≡ ok x)
unfolding new_processed_payment_event
new_processed_ok now provider key id at p k i = rw (p, k, i) (_, refl)

module _ (now at : Time) (n : ℕ) (result : PaymentProviderResult) (url : String) (emit : Bool) where
  processed_made :
      Succeeds (Fresh n) (new_processed_transition_event now succeeded_name at) (λ _. Credited n)
  unfolding new_processed_transition_event
  processed_made a (h, provider, id) =
      let p = a.state.intent in
      let (x, made) =
        new_processed_ok now p.provider (transition_idempotency_key p succeeded_name)
          p.transaction_id at provider (key_known p id) id in
      rw (made, new_processed_transition_event) (x, refl, h)

  processed_kept :
      (x : ProcessedPaymentEvent)
      → Succeeds (Credited n) (record_processed_event x) (λ _. Credited n)
  unfolding record_processed_event
  processed_kept x a h = (tt, refl, h)

  pub success_succeeds :
      Succeeds
        (Fresh n)
        (apply_success now result url emit at)
        (λ m a. (m ≡ is_persisted) × Credited (n + 1) a)
  success_succeeds =
      let recorded : Step (Unit {0}) =
        λ a. record_payment_succeeded now (current_provider_result a.state.intent result) at a in
      let last : Step Mutation =
        record_checkout_session_event now url emit at >> return is_persisted in
      let Q = λ (m : Mutation) (a : PaymentAggregate). (m ≡ is_persisted) × Credited (n + 1) a in
      bind-Succeeds (Fresh n) (λ _. Credited n) Q
        (new_processed_transition_event now succeeded_name at)
        (λ x. record_processed_event x >> (recorded >> last)) processed_made
        (λ x.
          bind-Succeeds (Credited n) (λ _. Credited n) Q (record_processed_event x)
            (λ _. recorded >> last) (processed_kept x)
            (λ _.
              bind-Succeeds (Credited n) (λ _. Credited (n + 1)) Q recorded (λ _. last)
                (success_recorded now at n result url emit)
                (λ _. ends_persisted now at (n + 1) result url emit)))
