-- ===== src/Literals.antt =====
-- The matcher of many literals: ScalableLiteralMatcher of plugins/content_alert/engine.py.
pub mod Types
pub mod Normal
pub mod Build
pub mod Scan
pub mod Match
pub mod Nodes
pub mod Grow
pub mod Lookup
pub mod Built
pub mod Equal
pub mod Owners
pub mod Apart
mod Tests
