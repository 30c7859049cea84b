-- ===== src/Relationship/Request.antt =====
-- core/modules/relationship/domain: a friend request (entity/friend_request.go) and its aggregate
-- (aggregate/friend_request_aggregate.go). The state of the aggregate is its entity, none where the
-- pointer is nil. Where the code would follow that pointer in Transition, an error stands for the
-- panic: the methods test the pointer first.
use wechat_clone.Base.{String, Bool, not, Option, none, some, ◌==◌, if◌then◌else◌}
use wechat_clone.Base.Time.{Time}
use wechat_clone.Base.Results.{Result, ok, err, ◌>>◌, fail_if}
use wechat_clone.Event.{Event, Aggregate, zero_root, init_aggregate, apply_change}
use wechat_clone.Relationship.Policy.{
  RelationshipError, root_error, empty_value, invalid_data, request_entity_required,
  request_not_pending,
}

abbrev pub pending : String
pending = "PENDING"

abbrev pub accepted : String
accepted = "ACCEPTED"

abbrev pub rejected : String
rejected = "REJECTED"

abbrev pub cancelled : String
cancelled = "CANCELLED"

pub record FriendRequest : Type 0 where
  pub id : String
  pub requester_id : String
  pub addressee_id : String
  pub status : String
  pub message : Option String
  pub created_at : Time
  pub responded_at : Option Time
  pub expired_at : Option Time
  pub cancelled_at : Option Time
  pub rejected_reason : Option String

-- `IsPending`
unfoldable pub is_pending : FriendRequest → Bool
is_pending r = r.status == pending

-- `Accept`, `Reject` and `Cancel`: they write only to a pending request.
unfoldable pub accept : FriendRequest → Time → Result RelationshipError FriendRequest
accept r now =
    fail_if (not (r.status == pending)) request_not_pending
    >> ok (record r { status = accepted; responded_at = some now })

unfoldable pub reject :
    FriendRequest → Option String → Time → Result RelationshipError FriendRequest
reject r reason now =
    fail_if (not (r.status == pending)) request_not_pending
    >> ok (record r { status = rejected; responded_at = some now; rejected_reason = reason })

unfoldable pub cancel : FriendRequest → Time → Result RelationshipError FriendRequest
cancel r now =
    fail_if (not (r.status == pending)) request_not_pending
    >> ok (record r { status = cancelled; cancelled_at = some now })

pub data FriendRequestEvent : Type 0 where
  created : (requester_id addressee_id message : String) → Time → FriendRequestEvent
  accept_event : Time → FriendRequestEvent
  reject_event : Option String → Time → FriendRequestEvent
  cancel_event : Time → FriendRequestEvent

unfoldable pub request_event_name : FriendRequestEvent → String
request_event_name (created _ _ _ _) = "EventFriendRequestCreated"
request_event_name (accept_event _) = "EventFriendRequestAccept"
request_event_name (reject_event _ _) = "EventFriendRequestReject"
request_event_name (cancel_event _) = "EventFriendRequestCancel"

abbrev pub FriendRequestAggregate : Type 0
FriendRequestAggregate = Aggregate FriendRequestEvent (Option FriendRequest)

-- A method of the entity, called by `Transition`.
unfoldable pub update :
    Option FriendRequest
    → (FriendRequest → Result RelationshipError FriendRequest)
    → Option FriendRequest × Option RelationshipError
update none f = (none, some request_entity_required)
update (some r) f = elim (f r) [ ok r' ↦ (some r', none) | err e ↦ (some r, some e) ]

-- The entity that the first event makes. `utils.NullableString` is nil for the empty text.
abbrev pub created_request : String → String → String → String → Time → FriendRequest
created_request id requester addressee message at = record {
  id = id;
  requester_id = requester;
  addressee_id = addressee;
  status = pending;
  message = if message == "" then none else some message;
  created_at = at;
  responded_at = none;
  expired_at = none;
  cancelled_at = none;
  rejected_reason = none;
}

-- `Transition`
unfoldable pub request_transition :
    Option FriendRequest
    → Event FriendRequestEvent
    → Option FriendRequest × Option RelationshipError
unfolding update accept reject cancel
request_transition s e = elim e.event_data [
  | created requester addressee message at ↦
      if requester == ""
      then (s, some invalid_data)
      else if addressee == ""
      then (s, some invalid_data)
      else (some (created_request e.aggregate_id requester addressee message at), none)
  | accept_event at ↦ update s (λ r. accept r at)
  | reject_event reason at ↦ update s (λ r. reject r reason at)
  | cancel_event at ↦ update s (λ r. cancel r at)
]

unfoldable pub change_request :
    FriendRequestAggregate → FriendRequestEvent → FriendRequestAggregate × Option RelationshipError
change_request a d = apply_change request_transition root_error request_event_name a (some d)

-- `NewFriendRequest` of the aggregate
unfoldable pub new_friend_request : String → Result RelationshipError FriendRequestAggregate
new_friend_request id =
    if id == ""
    then err empty_value
    else elim (init_aggregate zero_root "FriendRequestAggregate" id) [
      | err e ↦ err (root_error e)
      | ok root ↦ ok (record { root = root; state = none })
    ]

-- `Create`, with no message as the pair calls it
unfoldable pub create :
    FriendRequestAggregate
    → String
    → String
    → Time
    → FriendRequestAggregate × Option RelationshipError
create a requester addressee now = change_request a (created requester addressee "" now)

-- `AcceptRequest`, `RejectRequest` and `CancelRequest`: the entity has to be there.
unfoldable pub on_entity :
    FriendRequestAggregate → FriendRequestEvent → FriendRequestAggregate × Option RelationshipError
unfolding change_request
on_entity a d = elim a.state [
  | none ↦ (a, some request_entity_required)
  | some _ ↦ change_request a d
]
