-- ===== src/Http.antt =====
-- src/piconaut/http.
pub mod Response
pub mod Request
pub mod Config
pub mod ServerImpl
pub mod Query
pub mod SingleServer
pub mod MultiServer
