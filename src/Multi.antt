-- ===== src/Multi.antt =====
-- redis-2.6.12/src/multi.c: transactions, and the keys that clients watch.
pub mod Defs
pub mod Watch
pub mod Doomed
pub mod Events
pub mod Exec
mod Tests
