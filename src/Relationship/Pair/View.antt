-- ===== src/Relationship/Pair/View.antt =====
-- core/modules/relationship/domain/aggregate/relationship_pair_aggregate.go: the nine commands as
-- one type, and the abstract relationship that they act on.
use wechat_clone.Base.{
  String, Bool, true, false, not, ◌&&◌, Option, none, some, ◌==◌, if◌then◌else◌,
}
use wechat_clone.Base.Time.{Time}
use wechat_clone.Relationship.Policy.{RelationshipError}
use wechat_clone.Relationship.Pair.{
  Pair, is_some, has_pending_outgoing_request, has_pending_incoming_request,
}
use wechat_clone.Relationship.Pair.Commands.{
  PairAggregate, send_friend_request, cancel_friend_request, accept_friend_request,
  reject_friend_request, follow, unfollow, unfriend, block, unblock,
}

pub data Command : Type 0 where
  send : String → Time → Command
  cancel : Time → Command
  accept : String → Time → Command
  reject : Option String → Time → Command
  start_following : String → Time → Command
  stop_following end_friendship : Command
  start_blocking : String → Option String → Time → Command
  stop_blocking : Command

-- A call of one of the methods.
unfoldable pub run_command : Command → PairAggregate → PairAggregate × Option RelationshipError
run_command (send id now) a = send_friend_request a id now
run_command (cancel now) a = cancel_friend_request a now
run_command (accept id now) a = accept_friend_request a id now
run_command (reject reason now) a = reject_friend_request a reason now
run_command (start_following id now) a = follow a id now
run_command stop_following a = unfollow a
run_command end_friendship a = unfriend a
run_command (start_blocking id reason now) a = block a id reason now
run_command stop_blocking a = unblock a

-- The pending request, as the actor sees it.
pub data OpenRequest : Type 0 where
  no_request sent_request received_request : OpenRequest

-- What a relationship is, without the records that stand for it.
pub record View : Type 0 where
  pub target_exists : Bool
  pub is_self : Bool
  pub friends : Bool
  pub following : Bool
  pub followed_by : Bool
  pub blocking : Bool
  pub blocked_by : Bool
  pub request : OpenRequest

abbrev pub request_of : Bool → Bool → OpenRequest
request_of outgoing incoming =
    if outgoing then sent_request else if incoming then received_request else no_request

abbrev pub view_of : Pair → View
view_of s = record {
  target_exists = s.target_exists;
  is_self = s.actor_id == s.target_id;
  friends = is_some s.friendship;
  following = is_some s.following;
  followed_by = is_some s.followed_by;
  blocking = is_some s.blocking;
  blocked_by = is_some s.blocked_by;
  request = request_of (has_pending_outgoing_request s) (has_pending_incoming_request s);
}

abbrev pub when : Bool → View → Option View
when b v = if b then some v else none

abbrev pub is_no_request : OpenRequest → Bool
is_no_request no_request = true
is_no_request _ = false

abbrev pub is_sent : OpenRequest → Bool
is_sent sent_request = true
is_sent _ = false

abbrev pub is_received : OpenRequest → Bool
is_received received_request = true
is_received _ = false

-- What each command means for the relationship; `none` where it is not allowed.
abbrev pub meaning : Command → View → Option View
meaning (send _ _) v =
    when
      (v.target_exists
        && not v.is_self
        && not v.blocking
        && not v.blocked_by
        && not v.friends
        && is_no_request v.request)
      (record v { request = sent_request })
meaning (cancel _) v = when (not v.is_self && is_sent v.request) (record v { request = no_request })
meaning (accept _ _) v =
    when
      (not v.is_self
        && is_received v.request
        && not v.blocking
        && not v.blocked_by
        && not v.friends)
      (record v { request = no_request; friends = true })
meaning (reject _ _) v =
    when (not v.is_self && is_received v.request) (record v { request = no_request })
meaning (start_following _ _) v =
    when (v.target_exists && not v.is_self && not v.blocking && not v.blocked_by && not v.following)
      (record v { following = true })
meaning stop_following v = when (not v.is_self && v.following) (record v { following = false })
meaning end_friendship v = when (not v.is_self && v.friends) (record v { friends = false })
meaning (start_blocking _ _ _) v =
    when (v.target_exists && not v.is_self && not v.blocking) (record v {
      blocking = true;
      friends = false;
      following = false;
      followed_by = false;
      request = no_request;
    })
meaning stop_blocking v = when (not v.is_self && v.blocking) (record v { blocking = false })
