-- ===== src/Zset.antt =====
-- redis-2.6.12/src/t_zset.c: the skip list of a sorted set.
pub mod Defs
pub mod Removal
pub mod Lookup
pub mod Cells
pub mod Search
pub mod Splice
pub mod Link
pub mod Valid
pub mod Texts
pub mod All
pub mod Ends
pub mod Strings
pub mod Grow
pub mod Attach
pub mod Insert
pub mod Added
pub mod Inserted
pub mod Order
pub mod Ordered
pub mod Unlink
pub mod Lower
pub mod Join
pub mod Removed
pub mod Element
pub mod Deleted
pub mod Create
pub mod Rank
pub mod ByRank
pub mod Cut
pub mod GetRank
pub mod RankOf
pub mod Range
pub mod InRange
pub mod Ranged
pub mod LastRange
mod Tests
