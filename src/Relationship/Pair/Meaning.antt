-- ===== src/Relationship/Pair/Meaning.antt =====
-- core/modules/relationship/domain/aggregate/relationship_pair_aggregate.go: the nine commands
-- against the abstract relationship, where they succeed and where they are not allowed.
use wechat_clone.Base.{◌≡◌, inl, inr, Option, none, some, arith}
use wechat_clone.Base.Results.{Result-cases, ok, err}
use wechat_clone.Relationship.Policy.{
  RelationshipError, Guard, ensure_can_send_friend_request, ensure_can_cancel_friend_request,
  ensure_can_accept_friend_request, ensure_can_reject_friend_request, ensure_can_follow,
  ensure_can_unfollow, ensure_can_unfriend, ensure_can_block, ensure_can_unblock,
}
use wechat_clone.Relationship.Pair.{Pair, to_policy_state}
use wechat_clone.Relationship.Pair.Commands.{
  PairAggregate, guarded, send_friend_request, cancel_friend_request, accept_friend_request,
  reject_friend_request, follow, unfollow, unfriend, block, unblock,
}
use wechat_clone.Relationship.Pair.View.{
  Command, send, cancel, accept, reject, start_following, stop_following, end_friendship,
  start_blocking, stop_blocking, run_command, view_of, meaning,
}
use wechat_clone.Relationship.Pair.Refines.{
  follow_refines, unfollow_refines, unfriend_refines, unblock_refines,
}
use wechat_clone.Relationship.Pair.Answered.{
  cancel_refines, accept_refines, reject_refines, one_way,
}
use wechat_clone.Relationship.Pair.Sent.{send_refines}
use wechat_clone.Relationship.Pair.Blocked.{IsIdentified, block_refines}

-- A command that succeeds does to the relationship what it means, and was allowed: the abstract
-- relationship after it is the meaning of the command at the one before it, where the pair's friend
-- request, if there is one, has an identifier.
pub run_command_refines :
    (c : Command) (a b : PairAggregate)
    → IsIdentified a.state
    → run_command c a ≡ (b, none)
    → meaning c (view_of a.state) ≡ some (view_of b.state)
unfolding run_command
run_command_refines (send id now) a b i h = send_refines a b id now h
run_command_refines (cancel now) a b i h = cancel_refines a b now h
run_command_refines (accept id now) a b i h = accept_refines a b id now h
run_command_refines (reject reason now) a b i h = reject_refines a b reason now h
run_command_refines (start_following id now) a b i h = follow_refines a b id now h
run_command_refines stop_following a b i h = unfollow_refines a b h
run_command_refines end_friendship a b i h = unfriend_refines a b h
run_command_refines (start_blocking id reason now) a b i h = block_refines a b id reason now i h
run_command_refines stop_blocking a b i h = unblock_refines a b h

guard_of : Command → Guard
guard_of (send _ _) = ensure_can_send_friend_request
guard_of (cancel _) = ensure_can_cancel_friend_request
guard_of (accept _ _) = ensure_can_accept_friend_request
guard_of (reject _ _) = ensure_can_reject_friend_request
guard_of (start_following _ _) = ensure_can_follow
guard_of stop_following = ensure_can_unfollow
guard_of end_friendship = ensure_can_unfriend
guard_of (start_blocking _ _ _) = ensure_can_block
guard_of stop_blocking = ensure_can_unblock

-- A command whose guard passes has a meaning.
guard_allows :
    (c : Command) (s : Pair)
    → guard_of c (to_policy_state s) ≡ ok tt
    → meaning c (view_of s) ≡ none
    → ⊥
unfolding guard_of to_policy_state ensure_can_send_friend_request ensure_can_cancel_friend_request
    ensure_can_accept_friend_request ensure_can_reject_friend_request ensure_can_follow
    ensure_can_unfollow ensure_can_unfriend ensure_can_block ensure_can_unblock
guard_allows (send _ _) s q h = ground arith
guard_allows (cancel _) s q h = ground arith
guard_allows (accept _ _) s q h = ground (arith, one_way s)
guard_allows (reject _ _) s q h = ground (arith, one_way s)
guard_allows (start_following _ _) s q h = ground arith
guard_allows stop_following s q h = ground arith
guard_allows end_friendship s q h = ground arith
guard_allows (start_blocking _ _ _) s q h = ground arith
guard_allows stop_blocking s q h = ground arith

-- Where a command has no meaning its guard gives an error.
guard_refuses :
    (c : Command) (s : Pair)
    → meaning c (view_of s) ≡ none
    → (e : RelationshipError) × (guard_of c (to_policy_state s) ≡ err e)
guard_refuses c s h = elim (Result-cases (guard_of c (to_policy_state s))) [
  | inr refused ↦ refused
  | inl (tt, q) ↦ absurd (guard_allows c s q h)
]

guarded_err :
    (g : Guard) (a : PairAggregate) (rest : PairAggregate × Option RelationshipError)
    → (e : RelationshipError) × (g (to_policy_state a.state) ≡ err e)
    → (e : RelationshipError) × (guarded g a rest ≡ (a, some e))
guarded_err g a rest (e, q) = (e, rw (q, guarded))

-- A command that the abstract relationship does not allow returns an error and leaves the pair as it
-- was: no event is recorded and no relation or counter changes.
pub run_command_refused :
    (c : Command) (a : PairAggregate)
    → meaning c (view_of a.state) ≡ none
    → (e : RelationshipError) × (run_command c a ≡ (a, some e))
unfolding run_command guard_of send_friend_request cancel_friend_request accept_friend_request
    reject_friend_request follow unfollow unfriend block unblock
run_command_refused (send id now) a h =
    guarded_err ensure_can_send_friend_request a _ (guard_refuses (send id now) a.state h)
run_command_refused (cancel now) a h =
    guarded_err ensure_can_cancel_friend_request a _ (guard_refuses (cancel now) a.state h)
run_command_refused (accept id now) a h =
    guarded_err ensure_can_accept_friend_request a _ (guard_refuses (accept id now) a.state h)
run_command_refused (reject reason now) a h =
    guarded_err ensure_can_reject_friend_request a _ (guard_refuses (reject reason now) a.state h)
run_command_refused (start_following id now) a h =
    guarded_err ensure_can_follow a _ (guard_refuses (start_following id now) a.state h)
run_command_refused stop_following a h =
    guarded_err ensure_can_unfollow a _ (guard_refuses stop_following a.state h)
run_command_refused end_friendship a h =
    guarded_err ensure_can_unfriend a _ (guard_refuses end_friendship a.state h)
run_command_refused (start_blocking id reason now) a h =
    guarded_err ensure_can_block a _ (guard_refuses (start_blocking id reason now) a.state h)
run_command_refused stop_blocking a h =
    guarded_err ensure_can_unblock a _ (guard_refuses stop_blocking a.state h)
