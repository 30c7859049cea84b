-- ===== src/Relationship/Pair/Blocked.antt =====
-- core/modules/relationship/domain/aggregate/relationship_pair_aggregate.go: Block does to the
-- relationship what it means: it ends the friendship, both follow relations and the open request.
use wechat_clone.Base.{
  ◌≡◌, refl, sym, ap, ◌∙◌, inl, inr, String, Bool, true, false, Option, none, some, ◌==◌, arith,
  Bool-cases, Option-cases,
}
use wechat_clone.Base.Time.{Time}
use wechat_clone.Base.Results.{Result, ok, err}
use wechat_clone.Event.{new_event, apply_change}
use wechat_clone.Relationship.Policy.{RelationshipError, ensure_can_block}
use wechat_clone.Relationship.Request.{
  FriendRequest, FriendRequestAggregate, is_pending, pending, reject, cancel, cancel_event,
  reject_event, update, request_transition, request_event_name, on_entity,
}
use wechat_clone.Relationship.Pair.Relations.{BlockRelation, new_block_relation}
use wechat_clone.Relationship.Pair.{
  Pair, has_pending_request, has_pending_outgoing_request, has_pending_incoming_request,
  to_policy_state, blocked,
}
use wechat_clone.Relationship.Pair.Effects.{
  close_outgoing, close_incoming, apply_unfriended, apply_unfollowed,
}
use wechat_clone.Relationship.Pair.Blocking.{
  on_request, cancel_for_block, reject_for_block, remove_friendship, remove_outgoing_follow,
  remove_incoming_follow, apply_block_relation, clear_for_block, apply_blocked, drop_followed_by,
  with_block,
}
use wechat_clone.Relationship.Pair.Apply.{pair_transition}
use wechat_clone.Relationship.Pair.Commands.{PairAggregate, block}
use wechat_clone.Relationship.Pair.View.{start_blocking, View, view_of, meaning, no_request}
use wechat_clone.Relationship.Pair.Requests.{IsClosed, on_entity-some, on_entity-IsClosed}
use wechat_clone.Relationship.Pair.Refines.{
  guarded_ok, changed_ok, unfollowed_view, unfriended_view,
}
use wechat_clone.Relationship.Pair.Answered.{no_pending, closed_view}

-- The pair's friend request, if there is one, has an identifier.
abbrev pub IsIdentified : Pair → Type 0
IsIdentified s =
    (agg : FriendRequestAggregate)
    → s.friend_request ≡ some agg
    → (agg.root.aggregate_id == "") ≡ false

cancel_succeeds :
    (agg : FriendRequestAggregate) (r : FriendRequest) (now : Time)
    → (agg.root.aggregate_id == "") ≡ false
    → agg.state ≡ some r
    → (r.status == pending) ≡ true
    → (on_entity agg (cancel_event now)).1 ≡ none
unfolding apply_change new_event request_transition update cancel request_event_name
cancel_succeeds agg r now i q p =
    ap (λ (x : FriendRequestAggregate × Option RelationshipError). x.1)
      (on_entity-some agg (cancel_event now) r q)
    ∙ rw (i, q, p, update)

reject_succeeds :
    (agg : FriendRequestAggregate) (r : FriendRequest) (reason : Option String) (now : Time)
    → (agg.root.aggregate_id == "") ≡ false
    → agg.state ≡ some r
    → (r.status == pending) ≡ true
    → (on_entity agg (reject_event reason now)).1 ≡ none
unfolding apply_change new_event request_transition update reject request_event_name
reject_succeeds agg r reason now i q p =
    ap (λ (x : FriendRequestAggregate × Option RelationshipError). x.1)
      (on_entity-some agg (reject_event reason now) r q)
    ∙ rw (i, q, p, update)

-- The request that a pair has pending, from one user to the other.
record HasPending (s : Pair) : Type 0 where
  agg : FriendRequestAggregate
  request : FriendRequest
  there : s.friend_request ≡ some agg
  entity : agg.state ≡ some request
  waiting : (request.status == pending) ≡ true

has_pending_request-HasPending :
    (s : Pair) (x y : String) → has_pending_request s x y ≡ true → HasPending s
unfolding has_pending_request is_pending
has_pending_request-HasPending s x y h = on_agg s.friend_request refl
  where
    on_state :
        (agg : FriendRequestAggregate) (e : Option FriendRequest)
        → s.friend_request ≡ some agg
        → agg.state ≡ e
        → HasPending s
    on_state agg none q p = absurd (cc (rw (q, p, has_pending_request) at h))
    on_state agg (some r) q p =
        let k = rw (q, p, has_pending_request) at h in
        record { agg = agg; request = r; there = q; entity = p; waiting = ground arith }

    on_agg : (o : Option FriendRequestAggregate) → s.friend_request ≡ o → HasPending s
    on_agg none q = absurd (cc (rw (q, has_pending_request) at h))
    on_agg (some agg) q = on_state agg agg.state q refl

-- The steps that a block takes on an open request.
closes_outgoing :
    (s : Pair) (now : Time)
    → IsIdentified s
    → has_pending_outgoing_request s ≡ true
    → (agg : FriendRequestAggregate) × IsClosed agg
      × (cancel_for_block s now ≡ close_outgoing (record s { friend_request = some agg }))
unfolding cancel_for_block on_request
closes_outgoing s now i h =
    let p =
      has_pending_request-HasPending s s.actor_id s.target_id
        (unfold has_pending_outgoing_request in h) in
    let done = cancel_succeeds p.agg p.request now (i p.agg p.there) p.entity p.waiting in
    let later = (on_entity p.agg (cancel_event now)).0 in
    let run : on_entity p.agg (cancel_event now) ≡ (later, none) =
      ap (λ (e : Option RelationshipError). (later, e)) done in
    (
      later,
      on_entity-IsClosed p.agg later (cancel_event now) tt run,
      simp (h, p.there, done, cancel_for_block, on_request),
    )

closes_incoming :
    (s : Pair) (now : Time)
    → IsIdentified s
    → has_pending_incoming_request s ≡ true
    → (agg : FriendRequestAggregate) × IsClosed agg
      × (reject_for_block s now ≡ close_incoming (record s { friend_request = some agg }))
unfolding reject_for_block on_request
closes_incoming s now i h =
    let p =
      has_pending_request-HasPending s s.target_id s.actor_id
        (unfold has_pending_incoming_request in h) in
    let reason = some "blocked by user" in
    let done = reject_succeeds p.agg p.request reason now (i p.agg p.there) p.entity p.waiting in
    let later = (on_entity p.agg (reject_event reason now)).0 in
    let run : on_entity p.agg (reject_event reason now) ≡ (later, none) =
      ap (λ (e : Option RelationshipError). (later, e)) done in
    (
      later,
      on_entity-IsClosed p.agg later (reject_event reason now) tt run,
      simp (h, p.there, done, reject_for_block, on_request),
    )

cancel_skips :
    (s : Pair) (now : Time) → has_pending_outgoing_request s ≡ false → cancel_for_block s now ≡ s
unfolding cancel_for_block
cancel_skips s now h = simp (h, cancel_for_block)

reject_skips :
    (s : Pair) (now : Time) → has_pending_incoming_request s ≡ false → reject_for_block s now ≡ s
unfolding reject_for_block
reject_skips s now h = simp (h, reject_for_block)

-- After both steps no request is open, and nothing else has changed.
resolved_view :
    (s : Pair) (now : Time)
    → IsIdentified s
    → view_of (reject_for_block (cancel_for_block s now) now)
      ≡ record (view_of s) { request = no_request }
resolved_view s now i = elim (Bool-cases (has_pending_outgoing_request s)) [
  | inl out ↦
      let (agg, closed, e) = closes_outgoing s now i out in
      let t = close_outgoing (record s { friend_request = some agg }) in
      let quiet : has_pending_incoming_request t ≡ false =
        unfold has_pending_incoming_request in
        no_pending t agg t.target_id t.actor_id refl closed in
      rw (e, reject_skips t now quiet) (closed_view s t agg closed refl refl)
  | inr out ↦ elim (Bool-cases (has_pending_incoming_request s)) [
    | inl inc ↦
        let (agg, closed, e) = closes_incoming s now i inc in
        rw (cancel_skips s now out, e)
          (closed_view s (close_incoming (record s { friend_request = some agg })) agg closed refl
            refl)
    | inr inc ↦ rw (cancel_skips s now out, reject_skips s now inc, out, inc) refl
  ]
]

friendship_view :
    (s : Pair) → view_of (remove_friendship s) ≡ record (view_of s) { friends = false }
unfolding remove_friendship
friendship_view s = elim (Option-cases s.friendship) [
  | inl e ↦
      ap view_of (simp (e, remove_friendship))
      ∙ ap (λ (x : Bool). record (view_of s) { friends = x }) (rw e refl)
  | inr (f, e) ↦
      let step : remove_friendship s ≡ apply_unfriended s = simp (e, remove_friendship) in
      ap view_of step ∙ unfriended_view s
]

outgoing_follow_view :
    (s : Pair) → view_of (remove_outgoing_follow s) ≡ record (view_of s) { following = false }
unfolding remove_outgoing_follow
outgoing_follow_view s = elim (Option-cases s.following) [
  | inl e ↦
      ap view_of (simp (e, remove_outgoing_follow))
      ∙ ap (λ (x : Bool). record (view_of s) { following = x }) (rw e refl)
  | inr (f, e) ↦
      let step : remove_outgoing_follow s ≡ apply_unfollowed s = simp (e, remove_outgoing_follow) in
      ap view_of step ∙ unfollowed_view s
]

incoming_follow_view :
    (s : Pair) → view_of (remove_incoming_follow s) ≡ record (view_of s) { followed_by = false }
unfolding remove_incoming_follow has_pending_outgoing_request has_pending_incoming_request
    has_pending_request
incoming_follow_view s = elim (Option-cases s.followed_by) [
  | inl e ↦
      ap view_of {x = remove_incoming_follow s} {y = s} (simp (e, remove_incoming_follow))
      ∙ ap (λ (x : Bool). record (view_of s) { followed_by = x }) (rw e refl)
  | inr (f, e) ↦
      let step : remove_incoming_follow s ≡ drop_followed_by s f =
        simp (e, remove_incoming_follow) in
      ap view_of step
]

clear_view :
    (s : Pair) (now : Time)
    → IsIdentified s
    → view_of (clear_for_block s now) ≡ record (view_of s) {
      friends = false;
      following = false;
      followed_by = false;
      request = no_request;
    }
unfolding clear_for_block
clear_view s now i =
    let s1 = reject_for_block (cancel_for_block s now) now in
    let s2 = remove_friendship s1 in
    let s3 = remove_outgoing_follow s2 in
    incoming_follow_view s3
    ∙ ap (λ (v : View). record v { followed_by = false })
        (outgoing_follow_view s2
          ∙ ap (λ (v : View). record v { following = false })
              (friendship_view s1
                ∙ ap (λ (v : View). record v { friends = false }) (resolved_view s now i)))

module _ (s : Pair) (id blocker blocked_user : String) (reason : Option String) (at : Time) where
  apply_blocked_ok :
      (relation : BlockRelation)
      → new_block_relation id blocker blocked_user reason at ≡ ok relation
      → apply_blocked s id blocker blocked_user reason at
        ≡ (clear_for_block (with_block s relation) at, none)
  unfolding apply_blocked
  apply_blocked_ok relation q =
      let made : apply_block_relation s id blocker blocked_user reason at
          ≡ (with_block s relation, none) =
        unfold apply_block_relation in rw (q, apply_block_relation) in
      rw (made, apply_blocked)
        (ap {A = Pair × Option RelationshipError} {B = Pair × Option RelationshipError}
          (λ x. (clear_for_block x.0 at, none)) made)

  apply_blocked_err :
      (e : RelationshipError)
      → new_block_relation id blocker blocked_user reason at ≡ err e
      → apply_blocked s id blocker blocked_user reason at ≡ (s, some e)
  unfolding apply_blocked apply_block_relation
  apply_blocked_err e q = rw (q, apply_blocked, apply_block_relation)

blocked_view :
    (s t : Pair) (id blocker blocked_user : String) (reason : Option String) (at : Time)
    → IsIdentified s
    → apply_blocked s id blocker blocked_user reason at ≡ (t, none)
    → view_of t ≡ record (view_of s) {
      blocking = true;
      friends = false;
      following = false;
      followed_by = false;
      request = no_request;
    }
unfolding has_pending_outgoing_request has_pending_incoming_request has_pending_request
blocked_view s t id blocker blocked_user reason at i h =
    go (new_block_relation id blocker blocked_user reason at) refl
  where
    go :
        (r : Result RelationshipError BlockRelation)
        → new_block_relation id blocker blocked_user reason at ≡ r
        → view_of t ≡ record (view_of s) {
          blocking = true;
          friends = false;
          following = false;
          followed_by = false;
          request = no_request;
        }
    go (err e) q = absurd (cc (sym (apply_blocked_err s id blocker blocked_user reason at e q) ∙ h))
    go (ok relation) q =
        let done : clear_for_block (with_block s relation) at ≡ t =
          ap (λ (x : Pair × Option RelationshipError). x.0)
            (sym (apply_blocked_ok s id blocker blocked_user reason at relation q) ∙ h) in
        rw (← done) (clear_view (with_block s relation) at i)

pub block_refines :
    (a b : PairAggregate) (id : String) (reason : Option String) (now : Time)
    → IsIdentified a.state
    → block a id reason now ≡ (b, none)
    → meaning (start_blocking id reason now) (view_of a.state) ≡ some (view_of b.state)
unfolding block ensure_can_block to_policy_state pair_transition new_event
block_refines a b id reason now i h =
    let (passed, run) = guarded_ok ensure_can_block a b _ h in
    let effect = changed_ok a b (blocked id a.state.actor_id a.state.target_id reason now) run in
    rw (blocked_view a.state b.state id a.state.actor_id a.state.target_id reason now i effect)
      (ground arith)
