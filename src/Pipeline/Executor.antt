-- ===== src/Pipeline/Executor.antt =====
-- rs2-core/src/pipeline/executor.rs: the run of a pipeline over a message.
pub mod Base
pub mod Target
pub mod Request
pub mod Call
pub mod Step
pub mod Fanout
pub mod Parallel
pub mod Serial
pub mod Run
pub mod Log
pub mod Every
pub mod Granted
mod Sample
mod Tests
