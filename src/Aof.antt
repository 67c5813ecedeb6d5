-- ===== src/Aof.antt =====
-- redis-2.6.12/src/aof.c: commands as the append only file keeps them.
pub mod Defs
pub mod Lines
pub mod Read
pub mod Load
pub mod Numbers
pub mod Replay
mod Tests
