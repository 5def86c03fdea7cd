-- ===== src/Sort/Total.antt =====
-- Totality of crates/luajit-rs/src/stdlib/sort.rs.
pub mod Ends
pub mod Basic
pub mod Partition
pub mod Sorts
pub mod Introsort
