-- ===== src/Relationship/Pair/Answered.antt =====
-- core/modules/relationship/domain/aggregate/relationship_pair_aggregate.go: the answers to a
-- friend request do to the relationship what they mean.
use wechat_clone.Base.{
  ◌≡◌, refl, sym, ap, String, true, false, Option, none, some, ◌==◌, eq_iff, arith,
}
use wechat_clone.Base.Time.{Time}
use wechat_clone.Base.Results.{Result, ok, err}
use wechat_clone.Event.{new_event}
use wechat_clone.Relationship.Policy.{
  RelationshipError, ensure_can_cancel_friend_request, ensure_can_accept_friend_request,
  ensure_can_reject_friend_request,
}
use wechat_clone.Relationship.Request.{
  FriendRequest, FriendRequestAggregate, FriendRequestEvent, accept_event, reject_event,
  cancel_event, on_entity,
}
use wechat_clone.Relationship.Pair.Relations.{Friendship, new_friendship}
use wechat_clone.Relationship.Pair.{
  Pair, PairEvent, has_pending_request, has_pending_outgoing_request, has_pending_incoming_request,
  to_policy_state,
}
use wechat_clone.Relationship.Pair.Effects.{
  apply_request_cancelled, apply_request_rejected, apply_request_accepted, ensure_friend_request,
  close_outgoing, close_incoming,
}
use wechat_clone.Relationship.Pair.Apply.{pair_transition}
use wechat_clone.Relationship.Pair.Commands.{
  PairAggregate, change_pair, entity_of, with_request, answer_request, cancel_friend_request,
  accept_friend_request, reject_friend_request, cancelled_of, accepted_of, rejected_of,
}
use wechat_clone.Relationship.Pair.View.{cancel, accept, reject, view_of, meaning, no_request}
use wechat_clone.Relationship.Pair.Requests.{IsClosed, on_entity-IsClosed}
use wechat_clone.Relationship.Pair.Refines.{guarded_ok, changed_ok}

-- An answer that succeeds: the request was there, it took the answer, and the pair the event.
record Answered (a b : PairAggregate) (d : FriendRequestEvent)
    (event : FriendRequestAggregate → PairEvent) : Type 0 where
  before : FriendRequestAggregate
  later : FriendRequestAggregate
  taken : on_entity before d ≡ (later, none)
  changed : change_pair (with_request a later) (event later) ≡ (b, none)

answer_request-Answered :
    (a b : PairAggregate) (d : FriendRequestEvent) (event : FriendRequestAggregate → PairEvent)
    → answer_request a d event ≡ (b, none)
    → Answered a b d event
unfolding answer_request
answer_request-Answered a b d event h = go a.state.friend_request refl
  where
    step :
        (agg agg' : FriendRequestAggregate) (error : Option RelationshipError)
        → on_entity agg d ≡ (agg', error)
        → ◌≡◌ {A = PairAggregate × Option RelationshipError}
            (elim error [
              | some e ↦ (with_request a agg', some e)
              | none ↦ change_pair (with_request a agg') (event agg')
            ])
            (b, none)
        → Answered a b d event
    step agg agg' none q e = record { before = agg; later = agg'; taken = q; changed = e }
    step agg agg' (some x) q e = absurd (cc e)

    go : (o : Option FriendRequestAggregate) → a.state.friend_request ≡ o → Answered a b d event
    go none q = absurd (cc (rw (q, answer_request) at h))
    go (some agg) q =
        step agg (on_entity agg d).0 (on_entity agg d).1 refl (rw (q, answer_request) at h)

-- A closed request is not pending, whoever asks.
pub no_pending :
    (s : Pair) (agg : FriendRequestAggregate) (x y : String)
    → s.friend_request ≡ some agg
    → IsClosed agg
    → has_pending_request s x y ≡ false
unfolding has_pending_request
no_pending s agg x y h (r, e, f) = rw (h, e, f, has_pending_request)

pub closed_view :
    (s t : Pair) (agg : FriendRequestAggregate)
    → IsClosed agg
    → t.friend_request ≡ some agg
    → record (view_of t) { request = no_request } ≡ record (view_of s) { request = no_request }
    → view_of t ≡ record (view_of s) { request = no_request }
unfolding has_pending_outgoing_request has_pending_incoming_request
closed_view s t agg c h same =
    rw (no_pending t agg t.actor_id t.target_id h c, no_pending t agg t.target_id t.actor_id h c)
      same

pub cancel_refines :
    (a b : PairAggregate) (now : Time)
    → cancel_friend_request a now ≡ (b, none)
    → meaning (cancel now) (view_of a.state) ≡ some (view_of b.state)
unfolding cancel_friend_request ensure_can_cancel_friend_request to_policy_state pair_transition
    new_event apply_request_cancelled ensure_friend_request
cancel_refines a b now h =
    let (passed, run) = guarded_ok ensure_can_cancel_friend_request a b _ h in
    let answer = answer_request-Answered a b (cancel_event now) (cancelled_of now) run in
    let closed = on_entity-IsClosed answer.before answer.later (cancel_event now) tt answer.taken in
    let s = a.state in
    let effect : close_outgoing (record s { friend_request = some answer.later }) ≡ b.state =
      cc (
        changed_ok (with_request a answer.later) b (cancelled_of now answer.later)
          answer.changed) in
    rw
      (
        ← effect,
        closed_view s (close_outgoing (record s { friend_request = some answer.later }))
            answer.later closed refl refl,
      )
      (ground arith)

-- A pair cannot have a pending request both ways.
pub one_way :
    (s : Pair)
    → (s.actor_id == s.target_id) ≡ false
    → has_pending_incoming_request s ≡ true
    → has_pending_outgoing_request s ≡ false
unfolding has_pending_outgoing_request has_pending_incoming_request has_pending_request
one_way s n h = on_agg s.friend_request refl
  where
    on_state :
        (agg : FriendRequestAggregate) (e : Option FriendRequest)
        → s.friend_request ≡ some agg
        → agg.state ≡ e
        → has_pending_request s s.actor_id s.target_id ≡ false
    on_state agg none q p = rw (q, p, has_pending_request)
    on_state agg (some r) q p =
        let k = rw (q, p, has_pending_request) at h in
        rw (q, p, has_pending_request)
          (ground (
            arith,
            eq_iff r.requester_id s.target_id,
            eq_iff r.requester_id s.actor_id,
            eq_iff s.actor_id s.target_id,
          ))

    on_agg :
        (o : Option FriendRequestAggregate)
        → s.friend_request ≡ o
        → has_pending_request s s.actor_id s.target_id ≡ false
    on_agg none q = rw (q, has_pending_request)
    on_agg (some agg) q = on_state agg agg.state q refl

pub reject_refines :
    (a b : PairAggregate) (reason : Option String) (now : Time)
    → reject_friend_request a reason now ≡ (b, none)
    → meaning (reject reason now) (view_of a.state) ≡ some (view_of b.state)
unfolding reject_friend_request ensure_can_reject_friend_request to_policy_state pair_transition
    new_event apply_request_rejected ensure_friend_request
reject_refines a b reason now h =
    let (passed, run) = guarded_ok ensure_can_reject_friend_request a b _ h in
    let answer =
      answer_request-Answered a b (reject_event reason now) (rejected_of reason now) run in
    let closed =
      on_entity-IsClosed answer.before answer.later (reject_event reason now) tt answer.taken in
    let s = a.state in
    let effect : close_incoming (record s { friend_request = some answer.later }) ≡ b.state = cc (
      changed_ok (with_request a answer.later) b (rejected_of reason now answer.later)
        answer.changed) in
    rw
      (
        ← effect,
        closed_view s (close_incoming (record s { friend_request = some answer.later }))
            answer.later closed refl refl,
      )
      (ground (arith, one_way s))

accepted_view :
    (s t : Pair) (agg : FriendRequestAggregate) (id : String) (at : Time) (r : FriendRequest)
    (friendship : String)
    → IsClosed agg
    → s.friend_request ≡ some agg
    → apply_request_accepted s id r.requester_id r.addressee_id r.created_at friendship at
      ≡ (t, none)
    → view_of t ≡ record (view_of s) { request = no_request; friends = true }
unfolding apply_request_accepted ensure_friend_request
accepted_view s t agg id at r friendship c there h =
    go (new_friendship friendship s.actor_id s.target_id (some id) at) refl
  where
    go :
        (x : Result RelationshipError Friendship)
        → new_friendship friendship s.actor_id s.target_id (some id) at ≡ x
        → view_of t ≡ record (view_of s) { request = no_request; friends = true }
    go (err e) q = absurd (cc (rw (there, q, apply_request_accepted) at h))
    go (ok f) q =
        let e = rw (there, q, apply_request_accepted) at h in
        let kept : t.friend_request ≡ some agg =
          ap (λ (x : Pair × Option RelationshipError). x.0.friend_request) (sym e) in
        let same =
          ap
            (λ (x : Pair × Option RelationshipError). record (view_of x.0) { request = no_request })
            (sym e) in
        closed_view (record s { friendship = some f }) t agg c kept same

pub accept_refines :
    (a b : PairAggregate) (id : String) (now : Time)
    → accept_friend_request a id now ≡ (b, none)
    → meaning (accept id now) (view_of a.state) ≡ some (view_of b.state)
unfolding accept_friend_request ensure_can_accept_friend_request to_policy_state pair_transition
    new_event
accept_refines a b id now h =
    let (passed, run) = guarded_ok ensure_can_accept_friend_request a b _ h in
    let answer = answer_request-Answered a b (accept_event now) (accepted_of id now) run in
    let closed = on_entity-IsClosed answer.before answer.later (accept_event now) tt answer.taken in
    let s = record (a.state) { friend_request = some answer.later } in
    let effect =
      changed_ok (with_request a answer.later) b (accepted_of id now answer.later) answer.changed in
    rw
      (accepted_view s b.state answer.later answer.later.root.aggregate_id now
        (entity_of answer.later) id closed refl effect)
      (ground (arith, one_way a.state))
