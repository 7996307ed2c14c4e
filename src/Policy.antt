-- ===== src/Policy.antt =====
-- The v1.0.2 deduction policy: plugins/violation_record/deduction_policy.py.
pub mod Types
pub mod Keys
pub mod Count
pub mod Events
pub mod Cycles
pub mod Settle
pub mod Invariant
pub mod Manual
pub mod Status
pub mod Review
pub mod Records
pub mod Guards
pub mod Lifecycle
pub mod Reduction
pub mod Replay
pub mod Accept
pub mod Resolve
mod Tests
