-- ===== src/Write.antt =====
-- internal/domain/write: the catalogue of capabilities, the audit summary and the guard.
pub mod Policy
pub mod Summary
pub mod Guard
pub mod Call
