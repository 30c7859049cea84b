-- ===== src/Relationship/Pair/Requests.antt =====
-- core/modules/relationship/domain/aggregate: what answering or closing the pair's friend request
-- leaves pending.
use wechat_clone.Base.{
  ◌≡◌, refl, sym, ◌∙◌, inl, inr, String, false, Option, none, some, ◌==◌, Bool-cases,
}
use wechat_clone.Base.Time.{Time}
use wechat_clone.Base.Results.{Result, ok, err}
use wechat_clone.Event.{Event, apply_change, new_event}
use wechat_clone.Event.Numbering.{apply_change_ok}
use wechat_clone.Relationship.Policy.{RelationshipError, root_error, request_entity_required}
use wechat_clone.Relationship.Request.{
  FriendRequest, is_pending, pending, accepted, rejected, cancelled, accept, reject, cancel,
  FriendRequestEvent, created, accept_event, reject_event, cancel_event, request_event_name,
  FriendRequestAggregate, update, request_transition, change_request, on_entity,
}

-- The request holds an entity that is not pending.
abbrev pub IsClosed : FriendRequestAggregate → Type 0
IsClosed agg = (r : FriendRequest) × (agg.state ≡ some r) × (is_pending r ≡ false)

-- An event that answers a request.
abbrev pub Answers : FriendRequestEvent → Type 0
Answers (created _ _ _ _) = ⊥
Answers _ = Unit

update_closes :
    (s t : Option FriendRequest) (f : FriendRequest → Result RelationshipError FriendRequest)
    → ((r r' : FriendRequest) → f r ≡ ok r' → is_pending r' ≡ false)
    → update s f ≡ (t, none)
    → (r : FriendRequest) × (t ≡ some r) × (is_pending r ≡ false)
unfolding update
update_closes none t f k h = cc h
update_closes (some r) t f k h = go (f r) refl h
  where
    go :
        (x : Result RelationshipError FriendRequest)
        → f r ≡ x
        → ◌≡◌ {A = Option FriendRequest × Option RelationshipError}
            (elim x [ ok r' ↦ (some r', none) | err e ↦ (some r, some e) ])
            (t, none)
        → (r : FriendRequest) × (t ≡ some r) × (is_pending r ≡ false)
    go (ok r') q e = (r', cc e, k r r' q)
    go (err x) q e = absurd (cc e)

accept_closes : (now : Time) (r r' : FriendRequest) → accept r now ≡ ok r' → is_pending r' ≡ false
unfolding accept is_pending
accept_closes now r r' h = elim (Bool-cases (r.status == pending)) [
  | inl e ↦
      let same = rw e at h in
      let made : record r { status = accepted; responded_at = some now } ≡ r' = cc same in
      rw (← made) refl
  | inr e ↦ absurd (cc (rw e at h))
]

reject_closes :
    (reason : Option String) (now : Time) (r r' : FriendRequest)
    → reject r reason now ≡ ok r'
    → is_pending r' ≡ false
unfolding reject is_pending
reject_closes reason now r r' h = elim (Bool-cases (r.status == pending)) [
  | inl e ↦
      let same = rw e at h in
      let made : record r { status = rejected; responded_at = some now; rejected_reason = reason }
          ≡ r' =
        cc same in
      rw (← made) refl
  | inr e ↦ absurd (cc (rw e at h))
]

cancel_closes : (now : Time) (r r' : FriendRequest) → cancel r now ≡ ok r' → is_pending r' ≡ false
unfolding cancel is_pending
cancel_closes now r r' h = elim (Bool-cases (r.status == pending)) [
  | inl e ↦
      let same = rw e at h in
      let made : record r { status = cancelled; cancelled_at = some now } ≡ r' = cc same in
      rw (← made) refl
  | inr e ↦ absurd (cc (rw e at h))
]

transition_closes :
    (s t : Option FriendRequest) (e : Event FriendRequestEvent)
    → Answers e.event_data
    → request_transition s e ≡ (t, none)
    → (r : FriendRequest) × (t ≡ some r) × (is_pending r ≡ false)
unfolding request_transition
transition_closes s t e a h = go e.event_data refl a
  where
    go :
        (d : FriendRequestEvent)
        → e.event_data ≡ d
        → Answers d
        → (r : FriendRequest) × (t ≡ some r) × (is_pending r ≡ false)
    go (created _ _ _ _) q x = absurd x
    go (accept_event now) q x =
        update_closes s t (λ r. accept r now) (accept_closes now) (rw q at h)
    go (reject_event reason now) q x =
        update_closes s t (λ r. reject r reason now) (reject_closes reason now) (rw q at h)
    go (cancel_event now) q x =
        update_closes s t (λ r. cancel r now) (cancel_closes now) (rw q at h)

pub on_entity-some :
    (agg : FriendRequestAggregate) (d : FriendRequestEvent) (r : FriendRequest)
    → agg.state ≡ some r
    → on_entity agg d ≡ apply_change request_transition root_error request_event_name agg (some d)
unfolding on_entity change_request
on_entity-some agg d r q = simp (q, on_entity, change_request)

on_entity-none :
    (agg : FriendRequestAggregate) (d : FriendRequestEvent)
    → agg.state ≡ none
    → on_entity agg d ≡ (agg, some request_entity_required)
unfolding on_entity
on_entity-none agg d q = simp (q, on_entity)

-- An answer that succeeds closes the request.
pub on_entity-IsClosed :
    (agg agg' : FriendRequestAggregate) (d : FriendRequestEvent)
    → Answers d
    → on_entity agg d ≡ (agg', none)
    → IsClosed agg'
on_entity-IsClosed agg agg' d a h = go agg.state refl
  where
    go : (s : Option FriendRequest) → agg.state ≡ s → IsClosed agg'
    go none q = absurd (cc (sym (on_entity-none agg d q) ∙ h))
    go (some r) q =
        let (_, _, moved) =
          apply_change_ok request_transition root_error request_event_name agg agg' d
            (sym (on_entity-some agg d r q) ∙ h) in
        transition_closes agg.state agg'.state (new_event request_event_name agg.root d)
          (unfold new_event in a) moved
