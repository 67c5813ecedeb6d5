-- ===== src/Slowlog.antt =====
-- redis-2.6.12/src/slowlog.c: the bounded log of slow commands.
pub mod Defs
pub mod Bounds
mod Tests
