-- ===== src/Relationship/Tests.antt =====
-- Tests of core/modules/relationship/domain on two accounts, and the theorems at concrete inputs.
use wechat_clone.Base.{◌≡◌, refl, true, none, some, []}
use wechat_clone.Base.Text.{trim_space, concat, le_text}
use wechat_clone.Base.Results.{ok}
use wechat_clone.Event.{init_aggregate, set_internal, apply_change, new_event}
use wechat_clone.Relationship.Policy.{RelationshipError, ensure_can_block}
use wechat_clone.Relationship.Pair.Relations.{normalize_pair, new_block_relation}
use wechat_clone.Relationship.Pair.Changes.{no_changes}
use wechat_clone.Relationship.Pair.{Pair, pair_event_name, to_policy_state}
use wechat_clone.Relationship.Pair.Blocking.{apply_block_relation}
use wechat_clone.Relationship.Pair.Apply.{pair_transition}
use wechat_clone.Relationship.Pair.Commands.{
  PairAggregate, block, new_relationship_pair, canonical_pair_id,
}
use wechat_clone.Relationship.Pair.View.{send, start_blocking, run_command, view_of, meaning}
use wechat_clone.Relationship.Pair.Blocked.{IsIdentified}
use wechat_clone.Relationship.Pair.Meaning.{run_command_refines, run_command_refused}
use wechat_clone.Relationship.Pair.Exclusive.{
  is_exclusive, run_command_exclusive, run_command_blocked,
}

-- Alice and Bob, who are friends; Bob follows Alice.
abbrev friends : Pair
friends = record {
  actor_id = "bob";
  target_id = "alice";
  target_exists = true;
  friend_request = none;
  friendship = some (record {
    id = "f1";
    user_low_id = "alice";
    user_high_id = "bob";
    created_at = 5;
    created_from_request_id = none;
  });
  following =
      some (record { id = "w1"; follower_id = "bob"; followee_id = "alice"; created_at = 6 });
  followed_by = none;
  blocking = none;
  blocked_by = none;
  changes = no_changes;
}

abbrev pair : PairAggregate
pair = record {
  root = record {
    aggregate_id = "alice:bob";
    aggregate_type = "RelationshipPairAggregate";
    version = 4;
    base_version = 4;
    events = [];
  };
  state = friends;
}

pair_made : new_relationship_pair friends 4 ≡ ok pair
unfolding new_relationship_pair canonical_pair_id normalize_pair le_text concat init_aggregate
    trim_space set_internal
pair_made = refl

abbrev blocked_pair : PairAggregate
blocked_pair = (run_command (start_blocking "b1" none 9) pair).0

-- Bob blocks Alice: the friendship and the follow relation are gone, and counted.
block_succeeds : run_command (start_blocking "b1" none 9) pair ≡ (blocked_pair, none)
unfolding run_command block ensure_can_block to_policy_state apply_change pair_event_name
    pair_transition new_event apply_block_relation new_block_relation
block_succeeds = refl

friends-IsIdentified : IsIdentified friends
friends-IsIdentified agg h = cc h

run_command_refines_example :
    meaning (start_blocking "b1" none 9) (view_of friends) ≡ some (view_of blocked_pair.state)
run_command_refines_example =
    run_command_refines (start_blocking "b1" none 9) pair blocked_pair friends-IsIdentified
      block_succeeds

-- They are friends already: no request can be sent.
send_not_allowed : meaning (send "r1" 9) (view_of friends) ≡ none
send_not_allowed = refl

run_command_refused_example :
    (e : RelationshipError) × (run_command (send "r1" 9) pair ≡ (pair, some e))
run_command_refused_example = run_command_refused (send "r1" 9) pair send_not_allowed

run_command_exclusive_example : is_exclusive (view_of blocked_pair.state) ≡ true
run_command_exclusive_example =
    run_command_exclusive (start_blocking "b1" none 9) pair blocked_pair friends-IsIdentified refl
      block_succeeds

-- Alice has blocked Bob.
abbrev shut_out : PairAggregate
shut_out = record pair {
  state = record friends {
    friendship = none;
    following = none;
    blocked_by = some (record {
      id = "b2";
      blocker_id = "alice";
      blocked_id = "bob";
      reason = none;
      created_at = 8;
    });
  };
}

run_command_blocked_example :
    (e : RelationshipError) × (run_command (send "r1" 9) shut_out ≡ (shut_out, some e))
run_command_blocked_example = run_command_blocked (send "r1" 9) shut_out refl refl
