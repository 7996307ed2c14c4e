-- ===== src/Admission.antt =====
-- The admission of chat turns: plugins/random_chat/admission.py.
pub mod Turns
pub mod Counts
pub mod Capacity
mod Tests
