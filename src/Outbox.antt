-- ===== src/Outbox.antt =====
-- The durable delivery ledger of the content alerts: plugins/content_alert/outbox.py.
pub mod Types
pub mod Ops
pub mod Valid
pub mod Keep
pub mod Send
pub mod Steps
pub mod Settled
pub mod Once
mod Tests
