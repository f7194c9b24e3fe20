-- ===== src/Schemas.antt =====
-- backend/app/schemas: the data that the other parts exchange.
pub mod Json
pub mod Validated
pub mod ProcessingConfig
