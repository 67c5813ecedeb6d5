-- ===== src/Sides.antt =====
-- A relation between clients and keys that the server keeps on both sides, as pubsub.c and multi.c do:
-- each client has a list of its keys, and each key a list of its clients.
pub mod Defs
pub mod Count
pub mod Agree
pub use Defs.*
