-- ===== src/Controllers.antt =====
-- controllers: the reconcilers.
pub mod Errors
pub mod Setup
pub mod Config
pub mod FluentBit
