-- ===== src/Store.antt =====
-- The state that the program works on: the tables of migrations/0001_init.up.sql, the keys that
-- MySQL generates, the cache server, and the steps at which the outside world is asked.
pub mod State
pub mod Monad
pub mod Calls
pub mod Effects
pub mod Keeps
pub mod Triples
