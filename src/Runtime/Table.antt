-- ===== src/Runtime/Table.antt =====
-- Lua tables, crates/luajit-rs/src/runtime/table.rs: an array part and a hash part with chains.
pub mod Values
pub mod State
pub mod Find
pub mod Count
pub mod Chains
pub mod Brent
pub mod Nodes
pub mod Valid
pub mod Placed
pub mod Insert
pub mod Search
pub mod NewKey
pub mod TryNewKey
pub mod Assign
pub mod SetRound
pub mod SetAll
pub mod Resized
pub mod Entries
pub mod Contents
pub mod Resize
pub mod Log
pub mod Bins
pub mod Counted
pub mod CountArray
pub mod Rehash
pub mod Map
pub mod Integers
pub mod Strings
pub mod Next
pub mod Traverse
pub mod Length
pub mod Border
pub mod Pigeons
pub mod Indices
pub mod Len
pub mod Dup
