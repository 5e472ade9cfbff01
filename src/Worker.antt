-- ===== src/Worker.antt =====
-- The worker process (src/atlasqueue/worker).
pub mod Executor
pub mod Pool
pub mod Webhook
pub mod Handlers
pub mod Process
pub mod Kept
