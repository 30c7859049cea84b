-- ===== src/Relationship/Pair/Apply.antt =====
-- core/modules/relationship/domain/aggregate/relationship_pair_aggregate.go: what each event does
-- to a pair (Transition).
use wechat_clone.Base.{none}
use wechat_clone.Event.{Event}
use wechat_clone.Relationship.Pair.{
  Pair, PairEvent, request_sent, request_cancelled, request_accepted, request_rejected, followed,
  unfollowed, unfriended, blocked, unblocked,
}
use wechat_clone.Relationship.Pair.Effects.{
  Outcome, apply_request_sent, apply_request_cancelled, apply_request_rejected,
  apply_request_accepted, apply_followed, apply_unfollowed, apply_unfriended, apply_unblocked,
}
use wechat_clone.Relationship.Pair.Blocking.{apply_blocked}

-- `Transition`
unfoldable pub pair_transition : Pair → Event PairEvent → Outcome
unfolding apply_request_sent apply_request_cancelled apply_request_accepted apply_request_rejected
    apply_followed apply_unfollowed apply_unfriended apply_blocked apply_unblocked
pair_transition s e = elim e.event_data [
  | request_sent id requester addressee at ↦ apply_request_sent s id requester addressee at
  | request_cancelled id requester addressee at cancelled_at ↦
      apply_request_cancelled s id requester addressee at cancelled_at
  | request_accepted id requester addressee at friendship accepted_at ↦
      apply_request_accepted s id requester addressee at friendship accepted_at
  | request_rejected id requester addressee at reason rejected_at ↦
      apply_request_rejected s id requester addressee at reason rejected_at
  | followed id follower followee at ↦ apply_followed s id follower followee at
  | unfollowed _ _ ↦ (apply_unfollowed s, none)
  | unfriended _ _ ↦ (apply_unfriended s, none)
  | blocked id blocker blocked_user reason at ↦ apply_blocked s id blocker blocked_user reason at
  | unblocked _ _ ↦ (apply_unblocked s, none)
]
