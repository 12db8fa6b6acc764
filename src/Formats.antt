-- ===== src/Formats.antt =====
-- src/piconaut/formats.
pub mod Json
