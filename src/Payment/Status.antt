-- ===== src/Payment/Status.antt =====
-- core/modules/payment/domain/entity: the statuses of a payment (payment_intent.go) and how one
-- follows another (NormalizePaymentStatus and resolvePaymentTransition of
-- payment_intent_behavior.go).
pub mod Moves
use wechat_clone.Base.{String, Bool, true, false, ◌||◌, List, [], ◌∷◌, ◌==◌, if◌then◌else◌}
use wechat_clone.Base.Text.Case.{upper_trimmed}

abbrev pub creating : String
creating = "CREATING"

abbrev pub pending : String
pending = "PENDING"

abbrev pub success : String
success = "SUCCESS"

abbrev pub failed : String
failed = "FAILED"

abbrev pub cancelled : String
cancelled = "CANCELLED"

abbrev pub refunded : String
refunded = "REFUNDED"

abbrev pub chargeback : String
chargeback = "CHARGEBACK"

-- `ValidPaymentStatuses[s]`: a text that is no status reads as the empty text.
unfoldable pub valid_payment_status : String → String
valid_payment_status s =
    if s == creating
      || s == pending
      || s == success
      || s == failed
      || s == cancelled
      || s == refunded
      || s == chargeback
    then s
    else ""

-- `NormalizePaymentStatus`
unfoldable pub normalize_payment_status : String → String
unfolding valid_payment_status
normalize_payment_status status = valid_payment_status (upper_trimmed status)

-- `NormalizePaymentStatusOrPending`
unfoldable pub normalize_payment_status_or_pending : String → String
normalize_payment_status_or_pending status =
    if normalize_payment_status status == "" then pending else normalize_payment_status status

pub data PaymentTransitionType : Type 0 where
  to_none to_pending to_succeeded to_failed to_cancelled to_refunded to_chargeback :
      PaymentTransitionType

pub record PaymentTransition : Type 0 where
  pub previous_status : String
  pub current_status : String
  pub transition_type : PaymentTransitionType
  pub state_changed : Bool
  pub external_ref_changed : Bool
  pub ignored : Bool

-- The three outcomes of `resolvePaymentTransition`: nothing to do, a change, and no such change.
abbrev pub unchanged : String → PaymentTransition
unchanged status = record {
  previous_status = status;
  current_status = status;
  transition_type = to_none;
  state_changed = false;
  external_ref_changed = false;
  ignored = false;
}

abbrev pub changed : String → String → PaymentTransitionType → PaymentTransition
changed status next kind = record (unchanged status) {
  current_status = next;
  transition_type = kind;
  state_changed = true;
}

abbrev pub ignoring : String → PaymentTransition
ignoring status = record (unchanged status) { ignored = true }

-- The switch of `resolvePaymentTransition`, on a status and a different one.
unfoldable pub switch_status : String → String → PaymentTransition
switch_status status next =
    if status == creating
    then (if next == pending
        then changed status next to_pending
        else if next == success
        then changed status next to_succeeded
        else if next == failed
        then changed status next to_failed
        else if next == cancelled
        then changed status next to_cancelled
        else ignoring status)
    else if status == pending
    then (if next == success
        then changed status next to_succeeded
        else if next == failed
        then changed status next to_failed
        else if next == cancelled
        then changed status next to_cancelled
        else ignoring status)
    else if status == success
    then (if next == refunded
        then changed status next to_refunded
        else if next == chargeback
        then changed status next to_chargeback
        else ignoring status)
    else ignoring status

-- `resolvePaymentTransition`
unfoldable pub resolve_payment_transition : String → String → PaymentTransition
unfolding switch_status
resolve_payment_transition previous next =
    let status = normalize_payment_status_or_pending previous in
    if status == next then unchanged status else switch_status status next
