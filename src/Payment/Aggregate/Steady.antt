-- ===== src/Payment/Aggregate/Steady.antt =====
-- core/modules/payment/domain/aggregate/payment_intent_aggregate.go: what holds of an aggregate
-- between its commands, and how a command that begins with a transition keeps it.
use wechat_clone.Base.{ℕ, ◌+◌, ◌*◌, ◌≤◌, ◌≡◌, refl, ap, ◌∙◌, inl, inr, String, false, ◌==◌, arith}
use wechat_clone.Base.Time.{Time}
use wechat_clone.Base.Results.{Result, ok, err, Result-cases}
use wechat_clone.Payment.Status.{creating, normalize_payment_status, PaymentTransition}
use wechat_clone.Payment.Status.Moves.{rank}
use wechat_clone.Payment.Intent.{PaymentIntent, PaymentError, or_default}
use wechat_clone.Payment.Intent.Settled.{IsStatus}
use wechat_clone.Payment.Aggregate.{PaymentAggregate, AggregateError, Step, ◌>>=◌, intent_error}
use wechat_clone.Payment.Aggregate.Records.{normalize_snapshot, with_intent}
use wechat_clone.Payment.Aggregate.Commands.{Mutation}
use wechat_clone.Payment.Aggregate.Left.{Left, normalize_snapshot-IsStatus}
use wechat_clone.Payment.Aggregate.Sound.{Sound, credits, reversals}
use wechat_clone.Payment.Aggregate.Ready.{Ready, put, put-Ready}

-- The status that an intent stands at, as its snapshot is normalised.
abbrev pub standing : PaymentIntent → String
standing p = or_default (normalize_payment_status p.status) creating

-- What holds between commands, where `c` credits and `r` reversals have been published.
pub record Steady (c r : ℕ) (a : PaymentAggregate) : Type 0 where
  pub identified : (a.root.aggregate_id == "") ≡ false
  pub credited : (c + credits a.root.events) * 2 ≤ rank (standing a.state.intent)
  pub reversed : (r + reversals a.root.events) * 3 ≤ rank (standing a.state.intent)

standing_of_IsStatus : (p : PaymentIntent) → IsStatus p.status → standing p ≡ p.status
standing_of_IsStatus p (e, n) = rw (e, n)

pub Sound-Steady :
    (c r : ℕ) (q : PaymentIntent) (a : PaymentAggregate)
    → IsStatus q.status
    → Sound c r q a
    → Steady c r a
Sound-Steady c r q a k s =
    let here : standing a.state.intent ≡ q.status =
      ap standing s.intent ∙ standing_of_IsStatus q k in
    record {
      identified = s.identified;
      credited = omega (arith, s.credited, ap rank here);
      reversed = omega (arith, s.reversed, ap rank here);
    }

abbrev pub Transitioned : Type 0
Transitioned = PaymentIntent × Result PaymentError PaymentTransition

module _ (now at : Time) (c r : ℕ) (ref : String) (a : PaymentAggregate) (steady : Steady c r a)
    (x : Transitioned)
    (failing : (e : PaymentError) → x.1 ≡ err e → normalize_snapshot now a.state.intent ≡ x.0)
    (going : (t : PaymentTransition)
      → x.1 ≡ ok t
      → Left now at (normalize_snapshot now a.state.intent).status ref x.0 t) where
  -- A step that begins with a transition.
  pub transition_then :
      (f : PaymentTransition → Step Mutation)
      → ((t : PaymentTransition)
          → x.1 ≡ ok t
          → Ready now at c r ref x.0 t (put a x.0)
          → Sound c r x.0 (f t (put a x.0)).0)
      → Sound c r x.0 (((λ _. with_intent a x) >>= f) a).0
  unfolding normalize_snapshot
  transition_then f k = go x.1 refl
    where
      go :
          (y : Result PaymentError PaymentTransition)
          → x.1 ≡ y
          → Sound c r x.0
              (elim (elim y as (λ _. Result AggregateError PaymentTransition) [
                | err e ↦ err (intent_error e)
                | ok t ↦ ok t
              ])
                as (λ _. PaymentAggregate × Result AggregateError Mutation) [
                  | err e ↦ (put a x.0, err e)
                  | ok t ↦ f t (put a x.0)
                ]).0
      go (err e) h = record {
        intent = refl;
        identified = steady.identified;
        credited = rw (← failing e h) steady.credited;
        reversed = rw (← failing e h) steady.reversed;
      }
      go (ok t) h =
          k t h (put-Ready a (going t h) steady.identified steady.credited steady.reversed)

  pub left_status : IsStatus x.0.status
  left_status = elim (Result-cases x.1) [
    | inl (t, h) ↦ (going t h).status
    | inr (e, h) ↦ rw (← failing e h) (normalize_snapshot-IsStatus now a.state.intent)
  ]
