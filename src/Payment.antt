-- ===== src/Payment.antt =====
-- core/modules/payment/domain: payment intents. Status.antt models the state machine of the status,
-- Intent.antt the entity (entity/payment_intent.go, entity/payment_intent_behavior.go).
pub mod Status
pub mod Intent
pub mod Events
pub mod Aggregate
mod Tests
mod AggregateTests
