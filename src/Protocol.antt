-- ===== src/Protocol.antt =====
-- redis-2.6.12/src/networking.c: requests out of the bytes that a client sends.
pub mod Defs
pub mod Input
pub mod Lines
pub mod Resume
pub mod Chunks
pub mod Progress
pub mod Rounds
mod Tests
