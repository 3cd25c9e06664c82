-- ===== src/Runtime.antt =====
-- rs2-core/src/runtime.rs: what the host does around the service of a mount.
pub mod Guard
