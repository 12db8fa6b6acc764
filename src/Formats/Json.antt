-- ===== src/Formats/Json.antt =====
-- src/piconaut/formats/json.
pub mod JsonBuffer
pub mod RapidJson
pub mod ValueBuilder
pub mod Value
