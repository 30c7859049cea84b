-- ===== src/Payment/Intent/Settled.antt =====
-- core/modules/payment/domain/entity/payment_intent_behavior.go: the status and the reference
-- that a provider's report leaves.
use wechat_clone.Base.{
  ◌≡◌, refl, String, Bool, false, not, ◌&&◌, ◌==◌, eq_refl, arith, if◌then◌else◌,
}
use wechat_clone.Base.Text.{trim_space, trim_space_idem}
use wechat_clone.Base.Time.{Time}
use wechat_clone.Payment.Status.{
  creating, normalize_payment_status, normalize_payment_status_or_pending, PaymentTransition,
  resolve_payment_transition,
}
use wechat_clone.Payment.Status.Moves.{
  Resolves, moves, stays, ignores, CanMove-rank, resolve_payment_transition-Resolves,
}
use wechat_clone.Payment.Intent.{PaymentIntent, or_default, ensure_workflow_defaults}

-- A status as normalisation leaves it, other than the empty text.
abbrev pub IsStatus : String → Type 0
IsStatus s = (normalize_payment_status s ≡ s) × ((s == "") ≡ false)

pub or_pending_of_IsStatus : (s : String) → IsStatus s → normalize_payment_status_or_pending s ≡ s
unfolding normalize_payment_status_or_pending
or_pending_of_IsStatus s (e, n) = rw (e, n)

-- The status that a request for `next` leaves.
abbrev pub left_status : String → String → String
left_status s next =
    let t = resolve_payment_transition s next in if t.state_changed then t.current_status else s

-- What is settled once `next` has been asked for: the status is one, and asking again changes
-- nothing.
pub record SettledFor (next s : String) : Type 0 where
  pub status : IsStatus s
  pub quiet : (resolve_payment_transition s next).state_changed ≡ false

Resolves-same : (s : String) (t : PaymentTransition) → Resolves s s t → t.state_changed ≡ false
Resolves-same s _ (stays _) = refl
Resolves-same s _ (ignores _) = refl
Resolves-same s _ (moves kind m) = absurd (omega (arith, CanMove-rank s s kind m))

asked_again :
    (next : String) → IsStatus next → (resolve_payment_transition next next).state_changed ≡ false
asked_again next k =
    Resolves-same next (resolve_payment_transition next next)
      (rw (or_pending_of_IsStatus next k) at (resolve_payment_transition-Resolves next next))

pub left_status-SettledFor :
    (s next : String) → IsStatus s → IsStatus next → SettledFor next (left_status s next)
left_status-SettledFor s next h k =
    go (resolve_payment_transition s next) refl
      (rw (or_pending_of_IsStatus s h) at (resolve_payment_transition-Resolves s next))
  where
    go :
        (t : PaymentTransition)
        → resolve_payment_transition s next ≡ t
        → Resolves s next t
        → SettledFor next (left_status s next)
    go _ q (moves kind m) = rw q (record { status = k; quiet = asked_again next k })
    go _ q (stays _) = rw q (record { status = h; quiet = rw q refl })
    go _ q (ignores _) = rw q (record { status = h; quiet = rw q refl })

pub ensured_with :
    (p : PaymentIntent) (s r : String) (t : Time)
    → ensure_workflow_defaults p ≡ p
    → IsStatus s
    → trim_space r ≡ r
    → let q = record p { status = s; external_ref = r; updated_at = t } in
      ensure_workflow_defaults q ≡ q
unfolding ensure_workflow_defaults
ensured_with p s r t h (e, n) f = let kept : or_default s creating ≡ s = rw n in cc (h, e, kept, f)

-- The external reference that a request with `ref` leaves.
abbrev pub sets_ref : String → String → Bool
sets_ref old ref = not (trim_space ref == "") && not (trim_space ref == old)

abbrev pub left_ref : String → String → String
left_ref old ref = if sets_ref old ref then trim_space ref else old

pub ref_settled : (old ref : String) → sets_ref (left_ref old ref) ref ≡ false
ref_settled old ref = ground (arith, eq_refl (trim_space ref))

pub ref_trimmed :
    (old ref : String) → trim_space old ≡ old → trim_space (left_ref old ref) ≡ left_ref old ref
ref_trimmed old ref h = ground (arith, trim_space_idem ref)
