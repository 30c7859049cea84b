-- ===== src/Relationship/Pair.antt =====
-- core/modules/relationship/domain/aggregate: the relationship of an actor to a target
-- (relationship_pair_aggregate.go): its events and how they change it, its commands. The relations
-- and the changes to persist are in Relations and Changes.
pub mod Relations
pub mod Changes
pub mod Effects
pub mod Blocking
pub mod Apply
pub mod Commands
pub mod View
pub mod Requests
pub mod Refines
pub mod Answered
pub mod Sent
pub mod Blocked
pub mod Meaning
pub mod Exclusive
use wechat_clone.Base.{String, Bool, true, false, ◌&&◌, ◌||◌, Option, none, some, ◌==◌}
use wechat_clone.Base.Time.{Time}
use wechat_clone.Relationship.Policy.{PairState}
use wechat_clone.Relationship.Request.{is_pending, FriendRequestAggregate}
use wechat_clone.Relationship.Pair.Relations.{Friendship, FollowRelation, BlockRelation}
use wechat_clone.Relationship.Pair.Changes.{CounterDelta, PairChanges, add_counter_delta}

-- `relationshipPairState` and the changes: what the events change.
pub record Pair : Type 0 where
  pub actor_id : String
  pub target_id : String
  pub target_exists : Bool
  pub friend_request : Option FriendRequestAggregate
  pub friendship : Option Friendship
  pub following : Option FollowRelation
  pub followed_by : Option FollowRelation
  pub blocking : Option BlockRelation
  pub blocked_by : Option BlockRelation
  pub changes : PairChanges

pub data PairEvent : Type 0 where
  request_sent : (request requester addressee : String) → Time → PairEvent
  request_cancelled : (request requester addressee : String) → Time → Time → PairEvent
  request_accepted :
      (request requester addressee : String) → Time → (friendship : String) → Time → PairEvent
  request_rejected :
      (request requester addressee : String) → Time → Option String → Time → PairEvent
  followed : (follow follower followee : String) → Time → PairEvent
  unfollowed unfriended : (user other : String) → PairEvent
  blocked : (block blocker blocked_user : String) → Option String → Time → PairEvent
  unblocked : (blocker blocked_user : String) → PairEvent

unfoldable pub pair_event_name : PairEvent → String
pair_event_name (request_sent _ _ _ _) = "EventRelationshipPairFriendRequestSent"
pair_event_name (request_cancelled _ _ _ _ _) = "EventRelationshipPairFriendRequestCancelled"
pair_event_name (request_accepted _ _ _ _ _ _) = "EventRelationshipPairFriendRequestAccepted"
pair_event_name (request_rejected _ _ _ _ _ _) = "EventRelationshipPairFriendRequestRejected"
pair_event_name (followed _ _ _ _) = "EventRelationshipPairFollowed"
pair_event_name (unfollowed _ _) = "EventRelationshipPairUnfollowed"
pair_event_name (unfriended _ _) = "EventRelationshipPairUnfriended"
pair_event_name (blocked _ _ _ _ _) = "EventRelationshipPairBlocked"
pair_event_name (unblocked _ _) = "EventRelationshipPairUnblocked"

abbrev pub is_some : {A : Type 0} → Option A → Bool
is_some none = false
is_some (some _) = true

-- Whether the pair's request is pending, from one user to the other.
unfoldable pub has_pending_request : Pair → String → String → Bool
has_pending_request s requester addressee = elim s.friend_request [
  | none ↦ false
  | some agg ↦ elim agg.state [
    | none ↦ false
    | some r ↦ is_pending r && r.requester_id == requester && r.addressee_id == addressee
  ]
]

-- `hasPendingOutgoingRequest`
unfoldable pub has_pending_outgoing_request : Pair → Bool
has_pending_outgoing_request s = has_pending_request s s.actor_id s.target_id

-- `hasPendingIncomingRequest`
unfoldable pub has_pending_incoming_request : Pair → Bool
has_pending_incoming_request s = has_pending_request s s.target_id s.actor_id

-- `toPolicyState`
unfoldable pub to_policy_state : Pair → PairState
to_policy_state s = record {
  actor_id = s.actor_id;
  target_id = s.target_id;
  target_exists = s.target_exists;
  is_friend = is_some s.friendship;
  is_following = is_some s.following;
  has_outgoing_request = has_pending_outgoing_request s;
  has_incoming_request = has_pending_incoming_request s;
  has_blocking_relation = is_some s.blocking || is_some s.blocked_by;
  has_blocked_target = is_some s.blocking;
}

-- `a.changes.addCounterDelta(user, delta)`
abbrev pub tally : Pair → String → CounterDelta → Pair
tally s user delta = record s { changes = add_counter_delta s.changes user delta }

-- `trackFriendRequest`, on the request of the state, which is not nil where the code calls it.
abbrev pub track : Pair → Pair
track s = record s { changes = record (s.changes) { friend_request_tracked = true } }
