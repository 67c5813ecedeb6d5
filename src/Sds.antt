-- ===== src/Sds.antt =====
-- redis-2.6.12/src/sds.c: strings with a length and free space.
pub mod Defs
pub mod Wide
pub mod Room
pub mod Content
pub mod Narrow
pub mod Writes
mod Tests
