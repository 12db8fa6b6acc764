-- ===== src/Sys.antt =====
-- src/piconaut/sys.
pub mod SignalHandler
