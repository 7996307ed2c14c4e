-- ===== src/Features.antt =====
-- The feature switches and the allowlists of the chats: plugins/feature_control/state.py.
pub mod Types
pub mod Lists
pub mod State
pub mod Files
pub mod Valid
pub mod Restart
pub mod Model
pub mod Access
mod Tests
