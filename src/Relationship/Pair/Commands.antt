-- ===== src/Relationship/Pair/Commands.antt =====
-- core/modules/relationship/domain/aggregate/relationship_pair_aggregate.go: the constructor and
-- the commands of a pair. A command returns the aggregate with the error, none where there is none.
use wechat_clone.Base.{ℕ, String, ◌||◌, Option, none, some, ◌∷◌, [], ◌==◌, if◌then◌else◌}
use wechat_clone.Base.Text.{concat}
use wechat_clone.Base.Time.{Time, zero_time}
use wechat_clone.Base.Results.{Result, ok, err}
use wechat_clone.Event.{Aggregate, zero_root, init_aggregate, set_internal, apply_change}
use wechat_clone.Relationship.Policy.{
  RelationshipError, root_error, empty_value, friend_request_required, Guard,
  ensure_can_send_friend_request, ensure_can_cancel_friend_request,
  ensure_can_accept_friend_request, ensure_can_reject_friend_request, ensure_can_follow,
  ensure_can_unfollow, ensure_can_unfriend, ensure_can_block, ensure_can_unblock,
}
use wechat_clone.Relationship.Request.{
  accept_event, reject_event, cancel_event, FriendRequest, FriendRequestAggregate,
  FriendRequestEvent, new_friend_request, create, on_entity,
}
use wechat_clone.Relationship.Pair.Relations.{normalize_pair}
use wechat_clone.Relationship.Pair.Changes.{no_changes}
use wechat_clone.Relationship.Pair.{
  Pair, PairEvent, request_sent, request_cancelled, request_accepted, request_rejected, followed,
  unfollowed, unfriended, blocked, unblocked, pair_event_name, to_policy_state,
}
use wechat_clone.Relationship.Pair.Apply.{pair_transition}

abbrev pub PairAggregate : Type 0
PairAggregate = Aggregate PairEvent Pair

-- `CanonicalRelationshipPairAggregateID`
unfoldable pub canonical_pair_id : String → String → String
canonical_pair_id actor target =
    concat ((normalize_pair actor target).0 ∷ ":" ∷ (normalize_pair actor target).1 ∷ [])

-- `NewRelationshipPair`: the snapshot is a pair with no changes, and the stored version.
unfoldable pub new_relationship_pair : Pair → ℕ → Result RelationshipError PairAggregate
new_relationship_pair snapshot version =
    let id = canonical_pair_id snapshot.actor_id snapshot.target_id in
    if snapshot.actor_id == "" || snapshot.target_id == ""
    then err empty_value
    else elim (init_aggregate zero_root "RelationshipPairAggregate" id) [
      | err e ↦ err (root_error e)
      | ok root ↦ ok (record {
        root = set_internal root id version version;
        state = record snapshot { changes = no_changes };
      })
    ]

-- `ApplyChange` on the pair
unfoldable pub change_pair : PairAggregate → PairEvent → PairAggregate × Option RelationshipError
change_pair a d = apply_change pair_transition root_error pair_event_name a (some d)

-- What every command begins with: the guard on the state.
abbrev pub guarded :
    Guard
    → PairAggregate
    → PairAggregate × Option RelationshipError
    → PairAggregate × Option RelationshipError
guarded guard a rest = elim (guard (to_policy_state a.state)) [ err e ↦ (a, some e) | ok _ ↦ rest ]

abbrev pub with_request : PairAggregate → FriendRequestAggregate → PairAggregate
with_request a agg = record a { state = record (a.state) { friend_request = some agg } }

-- `SendFriendRequest`
unfoldable pub send_friend_request :
    PairAggregate → String → Time → PairAggregate × Option RelationshipError
unfolding change_pair
send_friend_request a id now =
    guarded ensure_can_send_friend_request a (elim (new_friend_request id) [
      | err e ↦ (a, some e)
      | ok fresh ↦
          let (agg, error) = create fresh a.state.actor_id a.state.target_id now in
          elim error [
            | some e ↦ (a, some e)
            | none ↦
                change_pair (with_request a agg)
                  (request_sent id a.state.actor_id a.state.target_id now)
          ]
    ])

-- The entity of a request, whose fields the events carry; it is there where a request is pending.
abbrev pub entity_of : FriendRequestAggregate → FriendRequest
entity_of agg = elim agg.state [
  | some r ↦ r
  | none ↦ record {
    id = "";
    requester_id = "";
    addressee_id = "";
    status = "";
    message = none;
    created_at = zero_time;
    responded_at = none;
    expired_at = none;
    cancelled_at = none;
    rejected_reason = none;
  }
]

-- How the three answers to a request go: the request first, then the event of the pair.
unfoldable pub answer_request :
    PairAggregate
    → FriendRequestEvent
    → (FriendRequestAggregate → PairEvent)
    → PairAggregate × Option RelationshipError
unfolding change_pair
answer_request a d event = elim a.state.friend_request [
  | none ↦ (a, some friend_request_required)
  | some agg ↦
      let (agg', error) = on_entity agg d in
      elim error [
        | some e ↦ (with_request a agg', some e)
        | none ↦ change_pair (with_request a agg') (event agg')
      ]
]

-- The events of the three answers.
abbrev pub cancelled_of : Time → FriendRequestAggregate → PairEvent
cancelled_of now agg =
    let r = entity_of agg in
    request_cancelled agg.root.aggregate_id r.requester_id r.addressee_id r.created_at now

abbrev pub accepted_of : String → Time → FriendRequestAggregate → PairEvent
accepted_of friendship now agg =
    let r = entity_of agg in
    request_accepted agg.root.aggregate_id r.requester_id r.addressee_id r.created_at friendship now

abbrev pub rejected_of : Option String → Time → FriendRequestAggregate → PairEvent
rejected_of reason now agg =
    let r = entity_of agg in
    request_rejected agg.root.aggregate_id r.requester_id r.addressee_id r.created_at reason now

-- `CancelFriendRequest`
unfoldable pub cancel_friend_request :
    PairAggregate → Time → PairAggregate × Option RelationshipError
unfolding answer_request
cancel_friend_request a now =
    guarded ensure_can_cancel_friend_request a
      (answer_request a (cancel_event now) (cancelled_of now))

-- `AcceptFriendRequest`
unfoldable pub accept_friend_request :
    PairAggregate → String → Time → PairAggregate × Option RelationshipError
unfolding answer_request
accept_friend_request a friendship_id now =
    guarded ensure_can_accept_friend_request a
      (answer_request a (accept_event now) (accepted_of friendship_id now))

-- `RejectFriendRequest`
unfoldable pub reject_friend_request :
    PairAggregate → Option String → Time → PairAggregate × Option RelationshipError
unfolding answer_request
reject_friend_request a reason now =
    guarded ensure_can_reject_friend_request a
      (answer_request a (reject_event reason now) (rejected_of reason now))

-- `Follow`
unfoldable pub follow : PairAggregate → String → Time → PairAggregate × Option RelationshipError
unfolding change_pair
follow a id now =
    guarded ensure_can_follow a (change_pair a (followed id a.state.actor_id a.state.target_id now))

-- `Unfollow`
unfoldable pub unfollow : PairAggregate → PairAggregate × Option RelationshipError
unfolding change_pair
unfollow a =
    guarded ensure_can_unfollow a (change_pair a (unfollowed a.state.actor_id a.state.target_id))

-- `Unfriend`
unfoldable pub unfriend : PairAggregate → PairAggregate × Option RelationshipError
unfolding change_pair
unfriend a =
    guarded ensure_can_unfriend a (change_pair a (unfriended a.state.actor_id a.state.target_id))

-- `Block`
unfoldable pub block :
    PairAggregate → String → Option String → Time → PairAggregate × Option RelationshipError
unfolding change_pair
block a id reason now =
    guarded ensure_can_block a
      (change_pair a (blocked id a.state.actor_id a.state.target_id reason now))

-- `Unblock`
unfoldable pub unblock : PairAggregate → PairAggregate × Option RelationshipError
unfolding change_pair
unblock a =
    guarded ensure_can_unblock a (change_pair a (unblocked a.state.actor_id a.state.target_id))
