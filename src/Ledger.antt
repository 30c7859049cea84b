-- ===== src/Ledger.antt =====
-- core/modules/ledger/domain: the double-entry ledger. Posting.antt models what a posting of an
-- account is, Account.antt the event-sourced account (ledger_account_aggregate.go).
pub mod Posting
pub mod Events
pub mod Account
pub mod Transaction
pub mod Booking
pub mod Service
mod Tests
mod BookingTests
mod ServiceTests
mod RecordTests
