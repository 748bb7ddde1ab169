-- ===== src/Esi.antt =====
-- internal/adapter/esi/http: what the client of EVE's API keeps between requests.
pub mod Bucket
pub mod Budget
pub mod Cache
pub mod Request
pub mod Client
pub mod Pages
pub mod Names
pub mod Lookup
