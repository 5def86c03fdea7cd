-- ===== src/Sort.antt =====
-- crates/luajit-rs/src/stdlib/sort.rs: the sort behind table.sort with a comparator. What a
-- comparison does, a call into the interpreter, is a parameter.
pub mod Exec
pub mod Slice
pub mod Intro
pub mod Moved
pub mod Total
mod Tests
