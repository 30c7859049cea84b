-- ===== src/Relationship/Pair/Changes.antt =====
-- core/modules/relationship/domain/aggregate/relationship_pair_aggregate_support.go: the changes
-- that a pair keeps for the repository, and the counters' deltas
-- (entity/user_relationship_counter_delta.go).
use wechat_clone.Base.{String, Bool, false, ◌&&◌, ◌||◌, [], ◌==◌, if◌then◌else◌}
use wechat_clone.Base.Int.{ℤ, pos, eqb_ℤ, add64}
use wechat_clone.Base.Text.{trim_space}
use wechat_clone.Base.Maps.{Map, insert, get_or}
use wechat_clone.Relationship.Pair.Relations.{Friendship, FollowRelation, BlockRelation}

-- `UserRelationshipCounterDelta`
pub record CounterDelta : Type 0 where
  pub friends : ℤ
  pub followers : ℤ
  pub following : ℤ
  pub blocked : ℤ
  pub pending_in : ℤ
  pub pending_out : ℤ

abbrev pub no_delta : CounterDelta
no_delta = record {
  friends = pos 0;
  followers = pos 0;
  following = pos 0;
  blocked = pos 0;
  pending_in = pos 0;
  pending_out = pos 0;
}

-- `IsZero`
unfoldable pub is_zero_delta : CounterDelta → Bool
is_zero_delta d =
    eqb_ℤ d.friends (pos 0)
    && eqb_ℤ d.followers (pos 0)
    && eqb_ℤ d.following (pos 0)
    && eqb_ℤ d.blocked (pos 0)
    && eqb_ℤ d.pending_in (pos 0)
    && eqb_ℤ d.pending_out (pos 0)

unfoldable pub add_delta : CounterDelta → CounterDelta → CounterDelta
add_delta c d = record {
  friends = add64 c.friends d.friends;
  followers = add64 c.followers d.followers;
  following = add64 c.following d.following;
  blocked = add64 c.blocked d.blocked;
  pending_in = add64 c.pending_in d.pending_in;
  pending_out = add64 c.pending_out d.pending_out;
}

-- A persistence intent: its kind, and the value it is about. The identifiers that the code stores
-- beside the value are those of the value.
pub data Intent (A : Type 0) : Type 0 where
  no_change : Intent A
  upsert delete : A → Intent A

-- `RelationshipPairChanges`. The friend request that the changes hold is a pointer to the one of
-- the pair's state: wherever the code sets it, it tracks the state's request. So the model keeps
-- only whether a request is tracked.
pub record PairChanges : Type 0 where
  pub friend_request_tracked : Bool
  pub friendship : Intent Friendship
  pub following : Intent FollowRelation
  pub followed_by : Intent FollowRelation
  pub block : Intent BlockRelation
  pub counter_deltas : Map CounterDelta

abbrev pub no_changes : PairChanges
no_changes = record {
  friend_request_tracked = false;
  friendship = no_change;
  following = no_change;
  followed_by = no_change;
  block = no_change;
  counter_deltas = [];
}

-- `addCounterDelta`
unfoldable pub add_counter_delta : PairChanges → String → CounterDelta → PairChanges
add_counter_delta c user delta =
    if trim_space user == "" || is_zero_delta delta then c else record c {
      counter_deltas =
          insert user (add_delta (get_or no_delta user c.counter_deltas) delta) c.counter_deltas;
    }
