-- ===== src/Budget.antt =====
-- The character budget of the chat prompts: plugins/chat_prompt/budget.py, with the records of
-- models.py.
pub mod Types
pub mod Fit
pub mod Context
pub mod Apply
pub mod Window
pub mod Latest
pub mod Chars
pub mod Total
pub mod Accounts
pub mod Order
pub mod Pruned
mod Tests
