-- ===== src/Relationship/Policy.antt =====
-- core/modules/relationship/domain: the errors (errors.go) and the guards of the commands
-- (policy/pair_invariants.go).
use wechat_clone.Base.{String, Bool, not, ◌||◌, ◌==◌}
use wechat_clone.Base.Results.{Result, ◌>>◌, fail_if}
use wechat_clone.Event.{RootError}

pub data RelationshipError : Type 0 where
  root_error : RootError → RelationshipError
  empty_value invalid_data : RelationshipError
  target_account_not_found relationship_blocked : RelationshipError
  friend_request_not_found friend_request_already_open : RelationshipError
  friendship_already_exists friendship_not_found : RelationshipError
  follow_already_exists follow_not_found : RelationshipError
  block_already_exists block_not_found : RelationshipError
  cannot_self friend_request_required request_entity_required request_not_pending :
      RelationshipError
  id_required user_required : RelationshipError

pub record PairState : Type 0 where
  pub actor_id : String
  pub target_id : String
  pub target_exists : Bool
  pub is_friend : Bool
  pub is_following : Bool
  pub has_outgoing_request : Bool
  pub has_incoming_request : Bool
  pub has_blocking_relation : Bool
  pub has_blocked_target : Bool

abbrev pub Guard : Type 0
Guard = PairState → Result RelationshipError (Unit {0})

abbrev pub ensure_target_exists : Guard
ensure_target_exists s = fail_if (not s.target_exists) target_account_not_found

abbrev pub ensure_not_self : Guard
ensure_not_self s = fail_if (s.actor_id == s.target_id) cannot_self

abbrev pub ensure_not_blocked : Guard
ensure_not_blocked s = fail_if s.has_blocking_relation relationship_blocked

unfoldable pub ensure_can_send_friend_request : Guard
ensure_can_send_friend_request s = do
  ensure_target_exists s
  ensure_not_self s
  ensure_not_blocked s
  fail_if s.is_friend friendship_already_exists
  fail_if (s.has_outgoing_request || s.has_incoming_request) friend_request_already_open

unfoldable pub ensure_can_cancel_friend_request : Guard
ensure_can_cancel_friend_request s = do
  ensure_not_self s
  fail_if (not s.has_outgoing_request) friend_request_not_found

unfoldable pub ensure_can_accept_friend_request : Guard
ensure_can_accept_friend_request s = do
  ensure_not_self s
  fail_if (not s.has_incoming_request) friend_request_not_found
  ensure_not_blocked s
  fail_if s.is_friend friendship_already_exists

unfoldable pub ensure_can_reject_friend_request : Guard
ensure_can_reject_friend_request s = do
  ensure_not_self s
  fail_if (not s.has_incoming_request) friend_request_not_found

unfoldable pub ensure_can_follow : Guard
ensure_can_follow s = do
  ensure_target_exists s
  ensure_not_self s
  ensure_not_blocked s
  fail_if s.is_following follow_already_exists

unfoldable pub ensure_can_unfollow : Guard
ensure_can_unfollow s = do ensure_not_self s; fail_if (not s.is_following) follow_not_found

unfoldable pub ensure_can_unfriend : Guard
ensure_can_unfriend s = do ensure_not_self s; fail_if (not s.is_friend) friendship_not_found

unfoldable pub ensure_can_block : Guard
ensure_can_block s = do
  ensure_target_exists s
  ensure_not_self s
  fail_if s.has_blocked_target block_already_exists

unfoldable pub ensure_can_unblock : Guard
ensure_can_unblock s = do ensure_not_self s; fail_if (not s.has_blocked_target) block_not_found
