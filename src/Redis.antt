-- ===== src/Redis.antt =====
-- The Redis side (src/atlasqueue/infrastructure/redis).
pub mod State
pub mod Queue
pub mod Leader
