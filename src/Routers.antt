-- ===== src/Routers.antt =====
-- src/piconaut/routers.
pub mod Pattern
pub mod Node
pub mod Router
