-- ===== src/Runtime.antt =====
-- What a run of the program acts on: the world, its environment, and actions that may raise.
pub mod Exec
pub mod World
pub mod Frame
pub mod Session
pub mod ReadOnly
pub mod Container
