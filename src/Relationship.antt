-- ===== src/Relationship.antt =====
-- core/modules/relationship/domain: the relationship of two accounts. Policy.antt models the
-- guards (policy/pair_invariants.go), Request.antt the friend request (entity/friend_request.go,
-- aggregate/friend_request_aggregate.go), Pair.antt the pair (aggregate/relationship_pair_aggregate.go).
pub mod Policy
pub mod Request
pub mod Pair
mod Tests
