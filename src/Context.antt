-- ===== src/Context.antt =====
-- The choice of the messages before a chat turn: plugins/random_chat/context.py.
pub mod Mask
pub mod Select
pub mod Limits
pub mod Quoted
mod Tests
