-- ===== src/Handlers.antt =====
-- src/piconaut/handlers.
pub mod Dispatcher
pub mod Callback
