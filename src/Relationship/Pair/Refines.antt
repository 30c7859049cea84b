-- ===== src/Relationship/Pair/Refines.antt =====
-- core/modules/relationship/domain/aggregate/relationship_pair_aggregate.go: the commands of a pair
-- do to the relationship what they mean.
use wechat_clone.Base.{◌≡◌, refl, sym, ap, String, Bool, true, false, Option, none, some, arith}
use wechat_clone.Base.Time.{Time}
use wechat_clone.Base.Results.{Result, ok, err}
use wechat_clone.Event.{new_event}
use wechat_clone.Event.Numbering.{apply_change_ok}
use wechat_clone.Relationship.Policy.{
  RelationshipError, root_error, Guard, ensure_can_follow, ensure_can_unfollow, ensure_can_unfriend,
  ensure_can_unblock,
}
use wechat_clone.Relationship.Pair.Relations.{FollowRelation, new_follow_relation}
use wechat_clone.Relationship.Pair.{
  Pair, PairEvent, pair_event_name, has_pending_request, has_pending_outgoing_request,
  has_pending_incoming_request, to_policy_state,
}
use wechat_clone.Relationship.Pair.Effects.{
  apply_followed, apply_unfollowed, apply_unfriended, apply_unblocked, drop_following,
  drop_friendship,
}
use wechat_clone.Relationship.Pair.Apply.{pair_transition}
use wechat_clone.Relationship.Pair.Commands.{
  PairAggregate, change_pair, guarded, follow, unfollow, unfriend, unblock,
}
use wechat_clone.Relationship.Pair.View.{
  start_following, stop_following, end_friendship, stop_blocking, View, view_of, meaning, when,
}

-- A guarded command that succeeds has passed its guard, and what follows the guard succeeded.
pub guarded_ok :
    (g : Guard) (a b : PairAggregate) (rest : PairAggregate × Option RelationshipError)
    → guarded g a rest ≡ (b, none)
    → (g (to_policy_state a.state) ≡ ok tt) × (rest ≡ (b, none))
guarded_ok g a b rest h = go (g (to_policy_state a.state)) refl h
  where
    go :
        (r : Result RelationshipError (Unit {0}))
        → g (to_policy_state a.state) ≡ r
        → ◌≡◌ {A = PairAggregate × Option RelationshipError}
            (elim r [ err e ↦ (a, some e) | ok _ ↦ rest ])
            (b, none)
        → (g (to_policy_state a.state) ≡ ok tt) × (rest ≡ (b, none))
    go (ok tt) q e = (q, e)
    go (err x) q e = absurd (cc e)

pub changed_ok :
    (a b : PairAggregate) (d : PairEvent)
    → change_pair a d ≡ (b, none)
    → pair_transition a.state (new_event pair_event_name a.root d) ≡ (b.state, none)
unfolding change_pair
changed_ok a b d h =
    let (_, _, moved) = apply_change_ok pair_transition root_error pair_event_name a b d h in moved

-- What each of these events does to the relationship.
followed_view :
    (s t : Pair) (id follower followee : String) (at : Time)
    → apply_followed s id follower followee at ≡ (t, none)
    → view_of t ≡ record (view_of s) { following = true }
unfolding apply_followed has_pending_outgoing_request has_pending_incoming_request
    has_pending_request
followed_view s t id follower followee at h = go (new_follow_relation id follower followee at) refl
  where
    go :
        (r : Result RelationshipError FollowRelation)
        → new_follow_relation id follower followee at ≡ r
        → view_of t ≡ record (view_of s) { following = true }
    go (err e) q = absurd (cc (rw (q, apply_followed) at h))
    go (ok relation) q =
        let e = rw (q, apply_followed) at h in
        ap (λ (x : Pair × Option RelationshipError). view_of x.0) (sym e)

pub unfollowed_view :
    (s : Pair) → view_of (apply_unfollowed s) ≡ record (view_of s) { following = false }
unfolding apply_unfollowed drop_following has_pending_outgoing_request has_pending_incoming_request
    has_pending_request
unfollowed_view s = refl

pub unfriended_view :
    (s : Pair) → view_of (apply_unfriended s) ≡ record (view_of s) { friends = false }
unfolding apply_unfriended drop_friendship has_pending_outgoing_request has_pending_incoming_request
    has_pending_request
unfriended_view s = refl

unblocked_view : (s : Pair) → view_of (apply_unblocked s) ≡ record (view_of s) { blocking = false }
unfolding apply_unblocked has_pending_outgoing_request has_pending_incoming_request
    has_pending_request
unblocked_view s = refl

-- What a command means, where its guard has passed and its effect is as meant.
pub means : (b : Bool) (v w w' : View) → b ≡ true → w' ≡ w → when b w ≡ some w'
means b v w w' e f = rw (e, f)

pub follow_refines :
    (a b : PairAggregate) (id : String) (now : Time)
    → follow a id now ≡ (b, none)
    → meaning (start_following id now) (view_of a.state) ≡ some (view_of b.state)
unfolding follow ensure_can_follow to_policy_state pair_transition new_event
follow_refines a b id now h =
    let (passed, run) = guarded_ok ensure_can_follow a b _ h in
    let effect = changed_ok a b _ run in
    rw (followed_view a.state b.state id a.state.actor_id a.state.target_id now effect)
      (ground arith)

pub unfollow_refines :
    (a b : PairAggregate)
    → unfollow a ≡ (b, none)
    → meaning stop_following (view_of a.state) ≡ some (view_of b.state)
unfolding unfollow ensure_can_unfollow to_policy_state pair_transition new_event
unfollow_refines a b h =
    let (passed, run) = guarded_ok ensure_can_unfollow a b _ h in
    let effect : apply_unfollowed a.state ≡ b.state = cc (changed_ok a b _ run) in
    rw (← effect, unfollowed_view a.state) (ground arith)

pub unfriend_refines :
    (a b : PairAggregate)
    → unfriend a ≡ (b, none)
    → meaning end_friendship (view_of a.state) ≡ some (view_of b.state)
unfolding unfriend ensure_can_unfriend to_policy_state pair_transition new_event
unfriend_refines a b h =
    let (passed, run) = guarded_ok ensure_can_unfriend a b _ h in
    let effect : apply_unfriended a.state ≡ b.state = cc (changed_ok a b _ run) in
    rw (← effect, unfriended_view a.state) (ground arith)

pub unblock_refines :
    (a b : PairAggregate)
    → unblock a ≡ (b, none)
    → meaning stop_blocking (view_of a.state) ≡ some (view_of b.state)
unfolding unblock ensure_can_unblock to_policy_state pair_transition new_event
unblock_refines a b h =
    let (passed, run) = guarded_ok ensure_can_unblock a b _ h in
    let effect : apply_unblocked a.state ≡ b.state = cc (changed_ok a b _ run) in
    rw (← effect, unblocked_view a.state) (ground arith)
