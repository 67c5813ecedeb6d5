-- ===== src/Util.antt =====
-- redis-2.6.12/src/util.c: conversions between strings and integers.
pub mod Number
pub mod Parse
pub mod Print
pub mod Units
pub mod Amounts
mod Tests
