-- ===== src/Persistence.antt =====
-- The Postgres side (src/atlasqueue/infrastructure/persistence).
pub mod Models
pub mod Mapping
pub mod Tasks
pub mod Events
pub mod Workers
pub mod Schema
pub mod Migrations
