-- ===== src/Service.antt =====
-- internal/service: the business logic over the repositories and the cache.
pub mod TaskCache
pub mod Access
pub mod Audit
pub mod Tasks
pub mod Comments
pub mod Teams
pub mod Auth
pub mod Stats
