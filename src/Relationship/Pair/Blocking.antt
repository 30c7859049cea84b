-- ===== src/Relationship/Pair/Blocking.antt =====
-- core/modules/relationship/domain/aggregate/relationship_pair_aggregate.go: what a new block
-- does to a pair (applyBlocked and the methods that it calls).
use wechat_clone.Base.{String, Option, none, some, if◌then◌else◌}
use wechat_clone.Base.Time.{Time}
use wechat_clone.Base.Results.{ok, err}
use wechat_clone.Relationship.Policy.{RelationshipError, friend_request_required}
use wechat_clone.Relationship.Request.{
  reject_event, cancel_event, FriendRequestAggregate, on_entity,
}
use wechat_clone.Relationship.Pair.Relations.{FollowRelation, BlockRelation, new_block_relation}
use wechat_clone.Relationship.Pair.Changes.{no_delta, upsert, delete}
use wechat_clone.Relationship.Pair.{
  Pair, has_pending_outgoing_request, has_pending_incoming_request, tally,
}
use wechat_clone.Relationship.Pair.Effects.{
  up, down, Outcome, close_outgoing, close_incoming, apply_unfollowed, apply_unfriended,
}

-- A method of the pair's request: the request is written through its pointer, also by a call that
-- fails. `none` is a nil request.
unfoldable pub on_request :
    Pair → (FriendRequestAggregate → FriendRequestAggregate × Option RelationshipError) → Outcome
on_request s f = elim s.friend_request [
  | none ↦ (s, some friend_request_required)
  | some agg ↦ let (agg', error) = f agg in (record s { friend_request = some agg' }, error)
]

-- `resolvePendingRequestForBlock`: the outgoing request is cancelled, the incoming one rejected.
unfoldable pub cancel_for_block : Pair → Time → Pair
unfolding on_request
cancel_for_block s now =
    let (t, error) = on_request s (λ agg. on_entity agg (cancel_event now)) in
    if has_pending_outgoing_request s
    then elim error [ some _ ↦ t | none ↦ close_outgoing t ]
    else s

unfoldable pub reject_for_block : Pair → Time → Pair
unfolding on_request
reject_for_block s now =
    let (t, error) =
      on_request s (λ agg. on_entity agg (reject_event (some "blocked by user") now)) in
    if has_pending_incoming_request s
    then elim error [ some _ ↦ t | none ↦ close_incoming t ]
    else s

-- `removeFriendshipForBlock`
unfoldable pub remove_friendship : Pair → Pair
unfolding apply_unfriended
remove_friendship s = elim s.friendship [ none ↦ s | some _ ↦ apply_unfriended s ]

-- `removeOutgoingFollowForBlock`
unfoldable pub remove_outgoing_follow : Pair → Pair
unfolding apply_unfollowed
remove_outgoing_follow s = elim s.following [ none ↦ s | some _ ↦ apply_unfollowed s ]

-- The target's follow relation to the actor, deleted.
abbrev pub drop_followed_by : Pair → FollowRelation → Pair
drop_followed_by s relation =
    let t = record s {
      followed_by = none;
      changes = record (s.changes) { followed_by = delete relation };
    } in
    tally (tally t s.target_id (record no_delta { following = down })) s.actor_id
      (record no_delta { followers = down })

-- `removeIncomingFollowForBlock`
unfoldable pub remove_incoming_follow : Pair → Pair
remove_incoming_follow s = elim s.followed_by [
  | none ↦ s
  | some relation ↦ drop_followed_by s relation
]

-- The pair with a new block.
abbrev pub with_block : Pair → BlockRelation → Pair
with_block s relation =
    let t = record s {
      blocking = some relation;
      changes = record (s.changes) { block = upsert relation };
    } in
    tally t s.actor_id (record no_delta { blocked = up })

-- `applyBlockRelation`
unfoldable pub apply_block_relation :
    Pair → String → String → String → Option String → Time → Outcome
apply_block_relation s id blocker blocked_user reason at =
    elim (new_block_relation id blocker blocked_user reason at) [
      | err e ↦ (s, some e)
      | ok relation ↦ (with_block s relation, none)
    ]

-- What a block does to the other relations.
unfoldable pub clear_for_block : Pair → Time → Pair
unfolding cancel_for_block reject_for_block remove_friendship remove_outgoing_follow
    remove_incoming_follow
clear_for_block s now =
    remove_incoming_follow
      (remove_outgoing_follow (remove_friendship (reject_for_block (cancel_for_block s now) now)))

-- `applyBlocked`
unfoldable pub apply_blocked : Pair → String → String → String → Option String → Time → Outcome
apply_blocked s id blocker blocked_user reason at =
    let (t, error) = apply_block_relation s id blocker blocked_user reason at in
    elim error [ some e ↦ (s, some e) | none ↦ (clear_for_block t at, none) ]
