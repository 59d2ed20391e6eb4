-- ===== src/Infra.antt =====
-- src/infra: the parts that are not containers.
pub mod Exception
pub mod Config
