-- ===== src/Domain.antt =====
-- The domain layer (src/atlasqueue/domain).
pub mod Enums
pub mod Exceptions
pub mod Backoff
pub mod Task
pub mod Worker
pub mod Ports
