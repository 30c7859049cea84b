-- ===== src/Relationship/Pair/Sent.antt =====
-- core/modules/relationship/domain/aggregate/relationship_pair_aggregate.go: SendFriendRequest does
-- to the relationship what it means.
use wechat_clone.Base.{
  ◌≡◌, refl, sym, ap, inl, inr, String, true, ◌&&◌, Option, none, some, ◌==◌, eq_refl, arith,
  Bool-cases,
}
use wechat_clone.Base.Time.{Time}
use wechat_clone.Base.Results.{Result, ok, err}
use wechat_clone.Event.{new_event}
use wechat_clone.Event.Numbering.{apply_change_ok}
use wechat_clone.Relationship.Policy.{RelationshipError, root_error, ensure_can_send_friend_request}
use wechat_clone.Relationship.Request.{
  FriendRequest, FriendRequestAggregate, is_pending, pending, created, created_request,
  request_transition, request_event_name, change_request, create, new_friend_request,
}
use wechat_clone.Relationship.Pair.{
  Pair, has_pending_request, has_pending_outgoing_request, to_policy_state, request_sent,
}
use wechat_clone.Relationship.Pair.Effects.{
  apply_request_sent, build_friend_request, request_of, open_outgoing, has_request_id,
}
use wechat_clone.Relationship.Pair.Apply.{pair_transition}
use wechat_clone.Relationship.Pair.Commands.{
  PairAggregate, change_pair, with_request, send_friend_request,
}
use wechat_clone.Relationship.Pair.View.{send, View, view_of, meaning, no_request, sent_request}
use wechat_clone.Relationship.Pair.Refines.{guarded_ok, changed_ok}

-- The request is pending, from one user to the other.
abbrev IsOpen : FriendRequestAggregate → String → String → Type 0
IsOpen agg x y =
    (r : FriendRequest) × (agg.state ≡ some r)
    × ((is_pending r && r.requester_id == x && r.addressee_id == y) ≡ true)

open_view :
    (s t : Pair) (agg : FriendRequestAggregate)
    → IsOpen agg t.actor_id t.target_id
    → t.friend_request ≡ some agg
    → record (view_of t) { request = no_request } ≡ record (view_of s) { request = no_request }
    → view_of t ≡ record (view_of s) { request = sent_request }
unfolding has_pending_outgoing_request has_pending_request
open_view s t agg (r, e, f) h same =
    let out : has_pending_outgoing_request t ≡ true = rw (h, e, f, has_pending_request) in
    rw out (ap (λ (v : View). record v { request = sent_request }) same)

create-IsOpen :
    (fresh agg : FriendRequestAggregate) (x y : String) (now : Time)
    → create fresh x y now ≡ (agg, none)
    → IsOpen agg x y
unfolding create change_request new_event request_transition is_pending
create-IsOpen fresh agg x y now h =
    let (_, _, moved) =
      apply_change_ok request_transition root_error request_event_name fresh agg
        (created x y "" now) h in
    let made : some (created_request fresh.root.aggregate_id x y "" now) ≡ agg.state =
      ground arith in
    (
      created_request fresh.root.aggregate_id x y "" now,
      sym made,
      ground (arith, eq_refl x, eq_refl y),
    )

built-IsOpen :
    (agg : FriendRequestAggregate) (id x y : String) (at : Time)
    → build_friend_request (request_of id x y pending at none none none) ≡ ok agg
    → IsOpen agg x y
unfolding build_friend_request is_pending
built-IsOpen agg id x y at h = go (new_friend_request id) refl
  where
    go :
        (r : Result RelationshipError FriendRequestAggregate)
        → new_friend_request id ≡ r
        → IsOpen agg x y
    go (err e) q = absurd (cc (rw (q, build_friend_request) at h))
    go (ok fresh) q =
        let e = rw (q, build_friend_request) at h in
        let same : record fresh { state = some (request_of id x y pending at none none none) }
            ≡ agg =
          cc e in
        rw (← same)
          (request_of id x y pending at none none none, refl, ground (arith, eq_refl x, eq_refl y))

sent_view :
    (s t : Pair) (agg : FriendRequestAggregate) (id : String) (at : Time)
    → IsOpen agg s.actor_id s.target_id
    → s.friend_request ≡ some agg
    → apply_request_sent s id s.actor_id s.target_id at ≡ (t, none)
    → view_of t ≡ record (view_of s) { request = sent_request }
unfolding apply_request_sent
sent_view s t agg id at c there h = elim (Bool-cases (has_request_id s.friend_request id)) [
  | inl e ↦
      let sent : open_outgoing s ≡ t = cc (simp (e, apply_request_sent) at h) in
      rw (← sent) (open_view s (open_outgoing s) agg c there refl)
  | inr e ↦ go (build_friend_request request) refl (simp (e, apply_request_sent) at h)
]
  where
    request : FriendRequest
    request = request_of id s.actor_id s.target_id pending at none none none

    go :
        (r : Result RelationshipError FriendRequestAggregate)
        → build_friend_request request ≡ r
        → ◌≡◌ {A = Pair × Option RelationshipError}
            (elim r [
              | err e ↦ (s, some e)
              | ok x ↦ (open_outgoing (record s { friend_request = some x }), none)
            ])
            (t, none)
        → view_of t ≡ record (view_of s) { request = sent_request }
    go (err x) q e = absurd (cc e)
    go (ok x) q e =
        let sent : open_outgoing (record s { friend_request = some x }) ≡ t = cc e in
        rw (← sent) (
          open_view s (open_outgoing (record s { friend_request = some x })) x
            (built-IsOpen x id s.actor_id s.target_id at q) refl refl)

pub send_refines :
    (a b : PairAggregate) (id : String) (now : Time)
    → send_friend_request a id now ≡ (b, none)
    → meaning (send id now) (view_of a.state) ≡ some (view_of b.state)
unfolding send_friend_request ensure_can_send_friend_request to_policy_state pair_transition
    new_event
send_refines a b id now h =
    let (passed, run) = guarded_ok ensure_can_send_friend_request a b _ h in
    let effect = made (new_friend_request id) run in rw effect (ground arith)
  where
    sent :
        (fresh agg : FriendRequestAggregate) (error : Option RelationshipError)
        → create fresh a.state.actor_id a.state.target_id now ≡ (agg, error)
        → ◌≡◌ {A = PairAggregate × Option RelationshipError}
            (elim error [
              | some e ↦ (a, some e)
              | none ↦
                  change_pair
                    (with_request a agg)
                    (request_sent id a.state.actor_id a.state.target_id now)
            ])
            (b, none)
        → view_of b.state ≡ record (view_of a.state) { request = sent_request }
    sent fresh agg (some x) q e = absurd (cc e)
    sent fresh agg none q e =
        sent_view (with_request a agg).state b.state agg id now
          (create-IsOpen fresh agg a.state.actor_id a.state.target_id now q) refl
          (changed_ok (with_request a agg) b
            (request_sent id a.state.actor_id a.state.target_id now) e)

    made :
        (r : Result RelationshipError FriendRequestAggregate)
        → ◌≡◌ {A = PairAggregate × Option RelationshipError}
            (elim r [
              | err e ↦ (a, some e)
              | ok fresh ↦
                  let (agg, error) = create fresh a.state.actor_id a.state.target_id now in
                  elim error [
                    | some e ↦ (a, some e)
                    | none ↦
                        change_pair
                          (with_request a agg)
                          (request_sent id a.state.actor_id a.state.target_id now)
                  ]
            ])
            (b, none)
        → view_of b.state ≡ record (view_of a.state) { request = sent_request }
    made (err x) e = absurd (cc e)
    made (ok fresh) e =
        sent fresh (create fresh a.state.actor_id a.state.target_id now).0
          (create fresh a.state.actor_id a.state.target_id now).1 refl e
