-- ===== src/Relationship/Pair/Effects.antt =====
-- core/modules/relationship/domain/aggregate/relationship_pair_aggregate.go: what the events of
-- requests, follows and friendships do to a pair, and the end of a block (the apply methods).
use wechat_clone.Base.{String, Bool, true, Option, none, some, ◌==◌, if◌then◌else◌}
use wechat_clone.Base.Int.{ℤ, pos, negsuc}
use wechat_clone.Base.Time.{Time}
use wechat_clone.Base.Results.{Result, ok, err}
use wechat_clone.Relationship.Policy.{RelationshipError}
use wechat_clone.Relationship.Request.{
  FriendRequest, pending, accepted, rejected, cancelled, FriendRequestAggregate, new_friend_request,
}
use wechat_clone.Relationship.Pair.Relations.{new_friendship, new_follow_relation}
use wechat_clone.Relationship.Pair.Changes.{no_delta, upsert, delete}
use wechat_clone.Relationship.Pair.{Pair, tally, track}

-- +1 and -1.
abbrev pub up : ℤ
up = pos 1

abbrev pub down : ℤ
down = negsuc 0

abbrev pub Outcome : Type 0
Outcome = Pair × Option RelationshipError

-- `SetFriendRequest(&entity.FriendRequest{...})` on a new aggregate: `buildFriendRequestAggregate`
unfoldable pub build_friend_request :
    FriendRequest → Result RelationshipError FriendRequestAggregate
build_friend_request r = elim (new_friend_request r.id) [
  | err e ↦ err e
  | ok agg ↦ ok (record agg { state = some r })
]

-- `ensureFriendRequestAggregate`
unfoldable pub ensure_friend_request :
    Pair → FriendRequest → Result RelationshipError FriendRequestAggregate
unfolding build_friend_request
ensure_friend_request s r = elim s.friend_request [
  | some agg ↦ ok agg
  | none ↦ build_friend_request r
]

-- The entity literals of the apply methods.
abbrev pub request_of :
    (id requester addressee status : String)
    → Time
    → (responded cancelled_at : Option Time) → Option String
    → FriendRequest
request_of id requester addressee status at responded cancelled_at reason = record {
  id = id;
  requester_id = requester;
  addressee_id = addressee;
  status = status;
  message = none;
  created_at = at;
  responded_at = responded;
  expired_at = none;
  cancelled_at = cancelled_at;
  rejected_reason = reason;
}

-- A request that the actor has sent.
abbrev pub open_outgoing : Pair → Pair
open_outgoing s =
    tally (tally (track s) s.actor_id (record no_delta { pending_out = up })) s.target_id
      (record no_delta { pending_in = up })

abbrev pub has_request_id : Option FriendRequestAggregate → String → Bool
has_request_id none id = Bool.false
has_request_id (some agg) id = agg.root.aggregate_id == id

-- `applyFriendRequestSent`
unfoldable pub apply_request_sent : Pair → String → String → String → Time → Outcome
unfolding build_friend_request
apply_request_sent s id requester addressee at =
    if has_request_id s.friend_request id
    then (open_outgoing s, none)
    else elim (build_friend_request (request_of id requester addressee pending at none none none)) [
      | err e ↦ (s, some e)
      | ok agg ↦ (open_outgoing (record s { friend_request = some agg }), none)
    ]

-- The counters of a request that the actor had sent, or had received, and that is closed.
abbrev pub close_outgoing : Pair → Pair
close_outgoing s =
    tally (tally (track s) s.actor_id (record no_delta { pending_out = down })) s.target_id
      (record no_delta { pending_in = down })

abbrev pub close_incoming : Pair → Pair
close_incoming s =
    tally (tally (track s) s.target_id (record no_delta { pending_out = down })) s.actor_id
      (record no_delta { pending_in = down })

-- `applyFriendRequestCancelled`
unfoldable pub apply_request_cancelled : Pair → String → String → String → Time → Time → Outcome
unfolding ensure_friend_request
apply_request_cancelled s id requester addressee at cancelled_at =
    elim (ensure_friend_request s
      (request_of id requester addressee cancelled at none (some cancelled_at) none)) [
        | err e ↦ (s, some e)
        | ok agg ↦ (close_outgoing (record s { friend_request = some agg }), none)
      ]

-- `applyFriendRequestRejected`
unfoldable pub apply_request_rejected :
    Pair → String → String → String → Time → Option String → Time → Outcome
unfolding ensure_friend_request
apply_request_rejected s id requester addressee at reason rejected_at =
    elim (ensure_friend_request s
      (request_of id requester addressee rejected at (some rejected_at) none reason)) [
        | err e ↦ (s, some e)
        | ok agg ↦ (close_incoming (record s { friend_request = some agg }), none)
      ]

-- `applyFriendRequestAccepted`
unfoldable pub apply_request_accepted :
    Pair → String → String → String → Time → String → Time → Outcome
unfolding ensure_friend_request
apply_request_accepted s id requester addressee at friendship_id accepted_at =
    elim (ensure_friend_request s
      (request_of id requester addressee accepted at (some accepted_at) none none)) [
        | err e ↦ (s, some e)
        | ok agg ↦
            elim (new_friendship friendship_id s.actor_id s.target_id (some id) accepted_at) [
              | err e ↦ (s, some e)
              | ok friendship ↦
                  let t = record s { friend_request = some agg; friendship = some friendship } in
                  let c = record (t.changes) {
                    friend_request_tracked = true;
                    friendship = upsert friendship;
                  } in
                  (
                    tally
                        (tally (record t { changes = c }) s.target_id
                          (record no_delta { friends = up; pending_out = down }))
                        s.actor_id (record no_delta { friends = up; pending_in = down }),
                    none,
                  )
            ]
      ]

-- `applyFollowed`
unfoldable pub apply_followed : Pair → String → String → String → Time → Outcome
apply_followed s id follower followee at = elim (new_follow_relation id follower followee at) [
  | err e ↦ (s, some e)
  | ok relation ↦
      let t = record s {
        following = some relation;
        changes = record (s.changes) { following = upsert relation };
      } in
      (
        tally (tally t s.actor_id (record no_delta { following = up })) s.target_id
            (record no_delta { followers = up }),
        none,
      )
]

-- The deletion of the actor's follow relation; `deleteFollowing` does nothing for nil.
unfoldable pub drop_following : Pair → Pair
drop_following s = record s {
  following = none;
  changes = elim s.following [
    | none ↦ s.changes
    | some relation ↦ record (s.changes) { following = delete relation }
  ];
}

unfoldable pub drop_friendship : Pair → Pair
drop_friendship s = record s {
  friendship = none;
  changes = elim s.friendship [
    | none ↦ s.changes
    | some friendship ↦ record (s.changes) { friendship = delete friendship }
  ];
}

-- `applyUnfollowed`
unfoldable pub apply_unfollowed : Pair → Pair
unfolding drop_following
apply_unfollowed s =
    tally (tally (drop_following s) s.actor_id (record no_delta { following = down })) s.target_id
      (record no_delta { followers = down })

-- `applyUnfriended`
unfoldable pub apply_unfriended : Pair → Pair
unfolding drop_friendship
apply_unfriended s =
    tally (tally (drop_friendship s) s.actor_id (record no_delta { friends = down })) s.target_id
      (record no_delta { friends = down })

-- `applyUnblocked`
unfoldable pub apply_unblocked : Pair → Pair
apply_unblocked s =
    let t = record s {
      blocking = none;
      changes = elim s.blocking [
        | none ↦ s.changes
        | some relation ↦ record (s.changes) { block = delete relation }
      ];
    } in
    tally t s.actor_id (record no_delta { blocked = down })
