-- ===== src/Pipeline.antt =====
-- rs2-core/src/pipeline: pipelines of calls, transforms and nested pipelines.
pub mod Spec
pub mod Segments
pub mod Condition
pub mod Validation
pub mod Response
pub mod Executor
pub mod Transform
mod Tests
