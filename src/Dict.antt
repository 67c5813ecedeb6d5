-- ===== src/Dict.antt =====
-- src/dict.c and src/dict.h: the hash table with chaining and incremental rehashing. A chain of
-- `dictEntry` is a list of key and value, a `dictEntry **` a list of chains, and NULL the empty list.
pub mod Defs
pub mod Ops
pub mod Chain
pub mod Table
pub mod Insert
pub mod Valid
pub mod Round
pub mod Rehash
pub mod Power
pub mod Expand
pub mod Find
pub mod Add
pub mod Delete
pub mod Replace
pub mod Hash
pub mod Iterator
mod Tests
