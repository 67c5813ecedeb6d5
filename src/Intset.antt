-- ===== src/Intset.antt =====
-- redis-2.6.12/src/intset.c: a sorted array of integers whose width grows with its values.
pub mod Defs
pub mod Slots
pub mod Search
pub mod Splice
pub mod Encoding
pub mod Tail
pub mod Upgrade
pub mod Change
mod Tests
