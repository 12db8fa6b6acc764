-- ===== src/Utils.antt =====
-- src/piconaut/utils.
pub mod Strings
