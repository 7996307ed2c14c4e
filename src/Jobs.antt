-- ===== src/Jobs.antt =====
-- The queue of the memory jobs: plugins/private_memory/jobs.py.
pub mod Types
pub mod Queue
pub mod Work
pub mod Valid
pub mod Claims
pub mod Keep
pub mod Steps
pub mod Stuck
pub mod Forever
mod Tests
