-- ===== src/Api.antt =====
-- The HTTP side (src/atlasqueue/api).
pub mod Auth
pub mod Errors
pub mod Login
pub mod Responses
pub mod Routes
pub mod Requests
pub mod Middleware
pub mod App
