-- ===== src/Relationship/Pair/Exclusive.antt =====
-- core/modules/relationship/domain/aggregate/relationship_pair_aggregate.go: what a block between
-- the two users excludes.
use wechat_clone.Base.{◌≡◌, Bool, true, not, ◌&&◌, ◌||◌, some, none, arith}
use wechat_clone.Relationship.Policy.{RelationshipError}
use wechat_clone.Relationship.Pair.Commands.{PairAggregate}
use wechat_clone.Relationship.Pair.View.{
  Command, send, cancel, accept, reject, start_following, stop_following, end_friendship,
  start_blocking, stop_blocking, run_command, View, view_of, meaning, is_no_request,
}
use wechat_clone.Relationship.Pair.Blocked.{IsIdentified}
use wechat_clone.Relationship.Pair.Meaning.{run_command_refines, run_command_refused}

-- A block by either user leaves no friendship, no follow relation and no pending request.
abbrev pub is_exclusive : View → Bool
is_exclusive v =
    not (v.blocking || v.blocked_by)
    || (not v.friends && not v.following && not v.followed_by && is_no_request v.request)

meaning_exclusive :
    (c : Command) (v w : View)
    → meaning c v ≡ some w
    → is_exclusive v ≡ true
    → is_exclusive w ≡ true
meaning_exclusive (send _ _) v w h x = ground arith
meaning_exclusive (cancel _) v w h x = ground arith
meaning_exclusive (accept _ _) v w h x = ground arith
meaning_exclusive (reject _ _) v w h x = ground arith
meaning_exclusive (start_following _ _) v w h x = ground arith
meaning_exclusive stop_following v w h x = ground arith
meaning_exclusive end_friendship v w h x = ground arith
meaning_exclusive (start_blocking _ _ _) v w h x = ground arith
meaning_exclusive stop_blocking v w h x = ground arith

-- A command that succeeds keeps that a block by either user excludes the friendship, both follow
-- relations and a pending request, where the pair's friend request, if there is one, has an
-- identifier.
pub run_command_exclusive :
    (c : Command) (a b : PairAggregate)
    → IsIdentified a.state
    → is_exclusive (view_of a.state) ≡ true
    → run_command c a ≡ (b, none)
    → is_exclusive (view_of b.state) ≡ true
run_command_exclusive c a b i x h =
    meaning_exclusive c (view_of a.state) (view_of b.state) (run_command_refines c a b i h) x

-- The commands that make a new tie between the two users.
abbrev pub makes_tie : Command → Bool
makes_tie (send _ _) = true
makes_tie (accept _ _) = true
makes_tie (start_following _ _) = true
makes_tie _ = Bool.false

meaning_blocked :
    (c : Command) (v : View)
    → makes_tie c ≡ true
    → (v.blocking || v.blocked_by) ≡ true
    → meaning c v ≡ none
meaning_blocked (send _ _) v q h = ground arith
meaning_blocked (cancel _) v q h = ground arith
meaning_blocked (accept _ _) v q h = ground arith
meaning_blocked (reject _ _) v q h = ground arith
meaning_blocked (start_following _ _) v q h = ground arith
meaning_blocked stop_following v q h = ground arith
meaning_blocked end_friendship v q h = ground arith
meaning_blocked (start_blocking _ _ _) v q h = ground arith
meaning_blocked stop_blocking v q h = ground arith

-- While either user blocks the other, sending a request, accepting one and following return an error
-- and leave the pair as it was.
pub run_command_blocked :
    (c : Command) (a : PairAggregate)
    → makes_tie c ≡ true
    → ((view_of a.state).blocking || (view_of a.state).blocked_by) ≡ true
    → (e : RelationshipError) × (run_command c a ≡ (a, some e))
run_command_blocked c a q h = run_command_refused c a (meaning_blocked c (view_of a.state) q h)
