-- ===== src/Relationship/Pair/Relations.antt =====
-- core/modules/relationship/domain/entity: friendships, follow relations and blocks
-- (friendship.go, follow_relation.go, block_relation.go, utils.go).
use wechat_clone.Base.{String, ◌||◌, Option, ◌==◌, if◌then◌else◌}
use wechat_clone.Base.Text.{le_text}
use wechat_clone.Base.Time.{Time}
use wechat_clone.Base.Results.{Result, ok, ◌>>◌, fail_if}
use wechat_clone.Relationship.Policy.{RelationshipError, id_required, user_required, cannot_self}

pub record Friendship : Type 0 where
  pub id : String
  pub user_low_id : String
  pub user_high_id : String
  pub created_at : Time
  pub created_from_request_id : Option String

pub record FollowRelation : Type 0 where
  pub id : String
  pub follower_id : String
  pub followee_id : String
  pub created_at : Time

pub record BlockRelation : Type 0 where
  pub id : String
  pub blocker_id : String
  pub blocked_id : String
  pub reason : Option String
  pub created_at : Time

-- `normalizePair`
unfoldable pub normalize_pair : String → String → String × String
normalize_pair a b = if le_text a b then (a, b) else (b, a)

-- `NewFriendship`
unfoldable pub new_friendship :
    String → String → String → Option String → Time → Result RelationshipError Friendship
new_friendship id a b request now =
    fail_if (id == "") id_required
    >> fail_if (a == "" || b == "") user_required
    >> fail_if (a == b) cannot_self
    >> ok (record {
      id = id;
      user_low_id = (normalize_pair a b).0;
      user_high_id = (normalize_pair a b).1;
      created_at = now;
      created_from_request_id = request;
    })

-- `NewFollowRelation`
unfoldable pub new_follow_relation :
    String → String → String → Time → Result RelationshipError FollowRelation
new_follow_relation id follower followee now =
    fail_if (id == "") id_required
    >> fail_if (follower == "") user_required
    >> fail_if (followee == "") user_required
    >> fail_if (follower == followee) cannot_self
    >> ok (record { id = id; follower_id = follower; followee_id = followee; created_at = now })

-- `NewBlockRelation`
unfoldable pub new_block_relation :
    String → String → String → Option String → Time → Result RelationshipError BlockRelation
new_block_relation id blocker blocked reason now =
    fail_if (id == "") id_required
    >> fail_if (blocker == "") user_required
    >> fail_if (blocked == "") user_required
    >> fail_if (blocker == blocked) cannot_self
    >> ok (record {
      id = id;
      blocker_id = blocker;
      blocked_id = blocked;
      reason = reason;
      created_at = now;
    })
