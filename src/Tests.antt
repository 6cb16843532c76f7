-- ===== src/Tests.antt =====
-- Runs at concrete inputs, each by a theorem whose hypotheses hold there.
pub mod Fixtures
mod Payments
pub mod Tables
pub mod Transactions
mod InMemory
mod Atomic
mod Order
mod Outboxes
mod Webhooks
mod Requests
mod Replies
pub mod Database
mod Rows
mod Relays
mod Broker
mod Tools
