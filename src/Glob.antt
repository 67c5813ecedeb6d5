-- ===== src/Glob.antt =====
-- stringmatchlen of redis-2.6.12/src/util.c: glob patterns.
pub mod Defs
pub mod Literal
mod Tests
