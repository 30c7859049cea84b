-- ===== src/Payment/Status/Moves.antt =====
-- core/modules/payment/domain/entity/payment_intent_behavior.go: resolvePaymentTransition against
-- the graph of the statuses.
use wechat_clone.Base.{
  ℕ, ◌<◌, ◌≡◌, refl, inl, inr, String, Bool, true, false, ◌==◌, eq_iff, eq_refl, arith, Bool-cases,
  ◌&&◌, ◌||◌, if◌then◌else◌,
}
use wechat_clone.Payment.Status.{
  creating, pending, success, failed, cancelled, refunded, chargeback,
  normalize_payment_status_or_pending, PaymentTransitionType, to_pending, to_succeeded, to_failed,
  to_cancelled, to_refunded, to_chargeback, PaymentTransition, unchanged, changed, ignoring,
  switch_status, resolve_payment_transition,
}

-- The edges of the graph: from a status to the next one, by a transition of a type.
pub data CanMove : String → String → PaymentTransitionType → Type 0 where
  created : CanMove creating pending to_pending
  create_succeeded : CanMove creating success to_succeeded
  create_failed : CanMove creating failed to_failed
  create_cancelled : CanMove creating cancelled to_cancelled
  pending_succeeded : CanMove pending success to_succeeded
  pending_failed : CanMove pending failed to_failed
  pending_cancelled : CanMove pending cancelled to_cancelled
  success_refunded : CanMove success refunded to_refunded
  success_charged_back : CanMove success chargeback to_chargeback

-- What a transition does: it follows an edge to the status asked for, or keeps the status.
pub data Resolves (status next : String) : PaymentTransition → Type 0 where
  moves :
      (kind : PaymentTransitionType)
      → CanMove status next kind
      → Resolves status next (changed status next kind)
  stays : status ≡ next → Resolves status next (unchanged status)
  ignores :
      ((kind : PaymentTransitionType) → CanMove status next kind → ⊥)
      → Resolves status next (ignoring status)

-- The edges as a test.
abbrev can_move : String → String → Bool
can_move s n =
    (s == creating && (n == pending || n == success || n == failed || n == cancelled))
    || (s == pending && (n == success || n == failed || n == cancelled))
    || (s == success && (n == refunded || n == chargeback))

can_move_of_CanMove :
    (s n : String) (kind : PaymentTransitionType) → CanMove s n kind → can_move s n ≡ true
can_move_of_CanMove _ _ _ created = refl
can_move_of_CanMove _ _ _ create_succeeded = refl
can_move_of_CanMove _ _ _ create_failed = refl
can_move_of_CanMove _ _ _ create_cancelled = refl
can_move_of_CanMove _ _ _ pending_succeeded = refl
can_move_of_CanMove _ _ _ pending_failed = refl
can_move_of_CanMove _ _ _ pending_cancelled = refl
can_move_of_CanMove _ _ _ success_refunded = refl
can_move_of_CanMove _ _ _ success_charged_back = refl

no_move :
    (s n : String) → can_move s n ≡ false → (kind : PaymentTransitionType) → CanMove s n kind → ⊥
no_move s n h kind m = cc (h, can_move_of_CanMove s n kind m)

-- A case of the switch on the next status: the case is taken, or the rest of the switch decides.
next_is :
    (s n t : String) (kind : PaymentTransitionType) (rest : PaymentTransition)
    → CanMove s t kind
    → ((n == t) ≡ false → Resolves s n rest)
    → Resolves s n (if n == t then changed s n kind else rest)
next_is s n t kind rest m k = elim (Bool-cases (n == t)) [
  | inl e ↦ rw ((eq_iff n t).0 e, eq_refl t) (moves kind m)
  | inr e ↦ rw e (k e)
]

from_creating : (n : String) → Resolves creating n (switch_status creating n)
unfolding switch_status
from_creating n = next_is creating n pending _ _ created (λ e.
    next_is creating n success _ _ create_succeeded (λ f.
      next_is creating n failed _ _ create_failed (λ g.
        next_is creating n cancelled _ _ create_cancelled
          (λ h. ignores (no_move creating n (ground arith))))))

from_pending : (n : String) → Resolves pending n (switch_status pending n)
unfolding switch_status
from_pending n = next_is pending n success _ _ pending_succeeded (λ e.
    next_is pending n failed _ _ pending_failed (λ f.
      next_is pending n cancelled _ _ pending_cancelled
        (λ g. ignores (no_move pending n (ground arith)))))

from_success : (n : String) → Resolves success n (switch_status success n)
unfolding switch_status
from_success n = next_is success n refunded _ _ success_refunded (λ e.
    next_is success n chargeback _ _ success_charged_back
      (λ f. ignores (no_move success n (ground arith))))

switch_status-Resolves : (s n : String) → Resolves s n (switch_status s n)
switch_status-Resolves s n = elim (Bool-cases (s == creating)) [
  | inl e ↦ rw ((eq_iff s creating).0 e) (from_creating n)
  | inr e ↦ elim (Bool-cases (s == pending)) [
    | inl f ↦ rw ((eq_iff s pending).0 f) (from_pending n)
    | inr f ↦ elim (Bool-cases (s == success)) [
      | inl g ↦ rw ((eq_iff s success).0 g) (from_success n)
      | inr g ↦ unfold switch_status in rw (e, f, g) (ignores (no_move s n (ground arith)))
    ]
  ]
]

-- The transition that is resolved moves along an edge of the graph from the (normalised) previous
-- status to the status asked for; or the two are the same and nothing changes; or there is no such
-- edge, the status stays and the request is marked as ignored.
pub resolve_payment_transition-Resolves :
    (previous next : String)
    → Resolves
        (normalize_payment_status_or_pending previous)
        next
        (resolve_payment_transition previous next)
unfolding resolve_payment_transition
resolve_payment_transition-Resolves previous next =
    let status = normalize_payment_status_or_pending previous in
    elim (Bool-cases (status == next)) [
      | inl e ↦ rw e (stays ((eq_iff status next).0 e))
      | inr e ↦ rw e (switch_status-Resolves status next)
    ]

-- How far a status is from the start: every edge goes up.
abbrev pub rank : String → ℕ
rank s = if s == creating then 0 else if s == pending then 1 else if s == success then 2 else 3

pub CanMove-rank :
    (s n : String) (kind : PaymentTransitionType) → CanMove s n kind → rank s < rank n
CanMove-rank _ _ _ created = omega arith
CanMove-rank _ _ _ create_succeeded = omega arith
CanMove-rank _ _ _ create_failed = omega arith
CanMove-rank _ _ _ create_cancelled = omega arith
CanMove-rank _ _ _ pending_succeeded = omega arith
CanMove-rank _ _ _ pending_failed = omega arith
CanMove-rank _ _ _ pending_cancelled = omega arith
CanMove-rank _ _ _ success_refunded = omega arith
CanMove-rank _ _ _ success_charged_back = omega arith
