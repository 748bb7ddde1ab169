-- ===== src/Repo.antt =====
-- internal/domain/*/pgx: one repository for each table. A statement of a repository is a function
-- on the table, with the keys and the constraints that the migrations under sql/ declare.
pub mod Confirms
pub mod Mutations
pub mod Sessions
pub mod Codes
pub mod Logins
pub mod Clients
pub mod Characters
pub mod Reads
