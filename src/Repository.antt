-- ===== src/Repository.antt =====
-- internal/repository: the SQL statements as functions on the tables, with the handling of the
-- driver's errors around them.
pub mod Rows
pub mod Users
pub mod Teams
pub mod Tasks
pub mod History
pub mod Comments
pub mod Inserts
pub mod Stats
