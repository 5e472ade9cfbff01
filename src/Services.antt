-- ===== src/Services.antt =====
-- The application services (src/atlasqueue/application/services).
pub mod Rows
pub mod Kept
pub mod FailureHandler
pub mod QueueManager
pub mod Cancellation
pub mod Scheduler
pub mod WorkerRegistry
pub mod Inflight
