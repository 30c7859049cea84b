-- ===== src/Payment/Aggregate/Sound.antt =====
-- core/modules/payment/domain/aggregate/payment_intent_aggregate.go: what every step of a command
-- keeps: the intent, and the count of the events that credit a payment or reverse it against the
-- status.
use wechat_clone.Base.{ℕ, ◌+◌, ◌*◌, ◌≤◌, ◌≡◌, refl, false, List, [], ◌∷◌, ◌++◌, ◌==◌, arith}
use wechat_clone.Base.Time.{Time}
use wechat_clone.Base.Results.{Result, ok, err}
use wechat_clone.Event.{Event, apply_change, append_and_transition, new_event}
use wechat_clone.Payment.Status.Moves.{rank}
use wechat_clone.Payment.Intent.{PaymentIntent}
use wechat_clone.Payment.Events.{
  PaymentEvent, payment_created, withdrawal_requested, checkout_session_created,
  provider_state_changed, payment_succeeded, payment_failed, payment_refunded, payment_chargeback,
  payment_event_name,
}
use wechat_clone.Payment.Aggregate.{
  PaymentAggregate, AggregateError, payment_transition, apply_payment_event, Step, ◌>>=◌,
  apply_change_at,
}

-- Whether an event credits the payment, and whether it reverses it.
abbrev pub credit : PaymentEvent → ℕ
credit (payment_succeeded _ _) = 1
credit _ = 0

abbrev pub reversal : PaymentEvent → ℕ
reversal (payment_refunded _ _) = 1
reversal (payment_chargeback _ _) = 1
reversal _ = 0

-- How many events of a list do.
abbrev pub credits : List (Event PaymentEvent) → ℕ
credits [] = 0
credits (e ∷ es) = credit e.event_data + credits es

abbrev pub reversals : List (Event PaymentEvent) → ℕ
reversals [] = 0
reversals (e ∷ es) = reversal e.event_data + reversals es

pub credits-append :
    (es fs : List (Event PaymentEvent)) → credits (es ++ fs) ≡ credits es + credits fs
credits-append [] fs = omega arith
credits-append (e ∷ es) fs = omega (arith, credits-append es fs)

pub reversals-append :
    (es fs : List (Event PaymentEvent)) → reversals (es ++ fs) ≡ reversals es + reversals fs
reversals-append [] fs = omega arith
reversals-append (e ∷ es) fs = omega (arith, reversals-append es fs)

-- An aggregate whose intent is `p`, where `c` credits and `r` reversals have been published: a
-- credit needs the rank of a success, a reversal that of a final status.
pub record Sound (c r : ℕ) (p : PaymentIntent) (a : PaymentAggregate) : Type 0 where
  pub intent : a.state.intent ≡ p
  pub identified : (a.root.aggregate_id == "") ≡ false
  pub credited : (c + credits a.root.events) * 2 ≤ rank p.status
  pub reversed : (r + reversals a.root.events) * 3 ≤ rank p.status

-- What a step makes of an aggregate, also where it fails.
abbrev pub Triple :
    {A : Type 0} → (PaymentAggregate → Type 0) → Step A → (PaymentAggregate → Type 0) → Type 0
Triple P m Q = (a : PaymentAggregate) → P a → Q (m a).0

pub bind-Triple :
    {A B : Type 0} (P Q R : PaymentAggregate → Type 0) (m : Step A) (f : A → Step B)
    → Triple P m Q
    → ((x : A) → Triple Q (f x) R)
    → ((a : PaymentAggregate) → Q a → R a)
    → Triple P (m >>= f) R
bind-Triple {A} {B} P Q R m f first rest kept a h = go (m a).1
  where
    go :
        (x : Result AggregateError A)
        → R
            (elim x as (λ _. PaymentAggregate × Result AggregateError B) [
              | err e ↦ ((m a).0, err e)
              | ok x ↦ f x (m a).0
            ]).0
    go (err e) = kept (m a).0 (first a h)
    go (ok x) = rest x (m a).0 (first a h)

-- The aggregate with an event appended, and its intent replaced.
abbrev pub logged : PaymentAggregate → PaymentIntent → PaymentEvent → PaymentAggregate
logged a p d = record {
  root = record (a.root) { events = a.root.events ++ (new_event payment_event_name a.root d ∷ []) };
  state = record (a.state) { intent = p };
}

pub named : (d : PaymentEvent) → (payment_event_name d == "") ≡ false
unfolding payment_event_name
named (payment_created _) = refl
named (withdrawal_requested _) = refl
named (checkout_session_created _) = refl
named (provider_state_changed _) = refl
named (payment_succeeded _ _) = refl
named (payment_failed _ _) = refl
named (payment_refunded _ _) = refl
named (payment_chargeback _ _) = refl

pub apply_change_at-logged :
    (now : Time) (a : PaymentAggregate) (d : PaymentEvent)
    → (a.root.aggregate_id == "") ≡ false
    → (apply_change_at now d a).0 ≡ logged a (apply_payment_event now a.state.intent d) d
unfolding apply_change_at apply_change append_and_transition payment_transition new_event
apply_change_at-logged now a d h = rw (h, named d) refl

-- An event that is applied to an intent without changing it, and that neither credits nor reverses
-- more than the status allows.
module _ (now : Time) (c r : ℕ) (p : PaymentIntent) (d : PaymentEvent)
    (same : apply_payment_event now p d ≡ p) where
  pub record-Sound :
      (a : PaymentAggregate)
      → Sound c r p a
      → (c + credits a.root.events + credit d) * 2 ≤ rank p.status
      → (r + reversals a.root.events + reversal d) * 3 ≤ rank p.status
      → Sound c r p (apply_change_at now d a).0
  unfolding new_event
  record-Sound a s fits_credit fits_reversal =
      let e = new_event payment_event_name a.root d in
      let kept : apply_payment_event now a.state.intent d ≡ p = rw s.intent same in
      rw (apply_change_at-logged now a d s.identified, kept)
        (record {
          intent = refl;
          identified = s.identified;
          credited = omega (arith, credits-append a.root.events (e ∷ []), fits_credit);
          reversed = omega (arith, reversals-append a.root.events (e ∷ []), fits_reversal);
        })
