-- ===== src/Payment/Aggregate/Machine.antt =====
-- core/modules/payment/domain/aggregate/payment_intent_aggregate.go: the aggregate's own state
-- machine, resolvePaymentTransition, and the writes of transitionProviderState.
use wechat_clone.Base.{String, true, false, not, ◌&&◌, ◌||◌, ◌==◌, if◌then◌else◌}
use wechat_clone.Base.Text.{trim_space}
use wechat_clone.Base.Time.{Time, time_or_now}
use wechat_clone.Payment.Status.{
  creating, pending, success, failed, cancelled, refunded, chargeback,
  normalize_payment_status_or_pending, PaymentTransition, PaymentTransitionType, to_none,
  to_pending, to_succeeded, to_failed, to_cancelled, to_refunded, to_chargeback,
}
use wechat_clone.Payment.Intent.{PaymentIntent}

-- The writes of a case of the switch to `transition`.
abbrev pub takes : PaymentTransition → String → PaymentTransitionType → PaymentTransition
takes t next kind = record t { current_status = next; transition_type = kind; state_changed = true }

abbrev pub ignores_it : PaymentTransition → PaymentTransition
ignores_it t = record t { ignored = true }

-- The cases of the switch on the current status, each a switch on the next one.
unfoldable pub from_creating_to : PaymentTransition → String → PaymentTransition
from_creating_to t next =
    if next == pending
    then takes t next to_pending
    else if next == success
    then takes t next to_succeeded
    else if next == failed
    then takes t next to_failed
    else if next == cancelled
    then takes t next to_cancelled
    else ignores_it t

unfoldable pub from_pending_to : PaymentTransition → String → PaymentTransition
from_pending_to t next =
    if next == success
    then takes t next to_succeeded
    else if next == failed
    then takes t next to_failed
    else if next == cancelled
    then takes t next to_cancelled
    else ignores_it t

unfoldable pub from_success_to : PaymentTransition → String → PaymentTransition
from_success_to t next =
    if next == refunded
    then takes t next to_refunded
    else if next == chargeback
    then takes t next to_chargeback
    else ignores_it t

-- The switch on the current status.
unfoldable pub switch_intent_status : PaymentTransition → String → PaymentTransition
unfolding from_creating_to from_pending_to from_success_to
switch_intent_status t next =
    let s = t.current_status in
    if s == creating
    then from_creating_to t next
    else if s == pending
    then from_pending_to t next
    else if s == success
    then from_success_to t next
    else if s == failed || s == cancelled || s == refunded || s == chargeback
    then ignores_it t
    else ignores_it t

-- The aggregate's `resolvePaymentTransition`
unfoldable pub resolve_intent_transition : String → String → PaymentTransition
unfolding switch_intent_status
resolve_intent_transition previous next =
    let t : PaymentTransition = record {
      previous_status = normalize_payment_status_or_pending previous;
      current_status = normalize_payment_status_or_pending previous;
      transition_type = to_none;
      state_changed = false;
      external_ref_changed = false;
      ignored = false;
    } in
    if t.current_status == next then t else switch_intent_status t next

-- The writes that follow: the status, the external reference and the time.
unfoldable pub write_intent :
    Time → PaymentIntent → String → PaymentTransition → Time → PaymentIntent × PaymentTransition
write_intent now p given t at =
    let ref = trim_space given in
    let names = not (ref == "") && not (ref == p.external_ref) in
    let status = if t.state_changed then t.current_status else p.status in
    let u = if names then record t { external_ref_changed = true } else t in
    (
      record p {
        status = status;
        external_ref = if names then ref else p.external_ref;
        updated_at =
            if u.state_changed || u.external_ref_changed then time_or_now now at else p.updated_at;
      },
      u,
    )

-- The transition and the writes of `transitionProviderState`, on a normalised intent.
unfoldable pub move_intent :
    Time → PaymentIntent → String → String → Time → PaymentIntent × PaymentTransition
unfolding resolve_intent_transition write_intent
move_intent now p ref next at =
    write_intent now p ref
      (resolve_intent_transition (normalize_payment_status_or_pending p.status) next) at
