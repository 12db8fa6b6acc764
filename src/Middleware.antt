-- ===== src/Middleware.antt =====
-- src/piconaut/middleware.
pub mod Manager
pub mod Csrf
