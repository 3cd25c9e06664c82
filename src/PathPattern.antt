-- ===== src/PathPattern.antt =====
-- rs2-core/src/path_pattern.rs: patterns with `${…}` placeholders.
pub mod Parse
pub mod Select
pub mod Resolve
mod Tests
