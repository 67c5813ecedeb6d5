-- ===== src/Adlist.antt =====
-- redis-2.6.12/src/adlist.c and adlist.h: the doubly linked list, over nodes at addresses.
pub mod Defs
pub mod Linked
pub mod Relink
pub mod Delete
pub mod Add
pub mod Insert
pub mod Walk
pub mod Rotate
mod Tests
