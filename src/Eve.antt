-- ===== src/Eve.antt =====
-- internal/usecase/eve: what the tools make of the rows that ESI gives.
pub mod Paging
pub mod Locations
pub mod Errors
pub mod Rows
pub mod Times
