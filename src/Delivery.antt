-- ===== src/Delivery.antt =====
-- The sending of a chat reply in parts: plugins/random_chat/delivery.py and delivery_store.py.
pub mod Ledger
pub mod Send
pub mod Once
pub mod Plan
pub mod Complete
mod Tests
