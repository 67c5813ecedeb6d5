-- ===== src/Rdb.antt =====
-- redis-2.6.12/src/rdb.c: the lengths and the integers of the snapshot format.
pub mod Defs
pub mod Bytes
pub mod Lengths
pub mod Integers
mod Tests
