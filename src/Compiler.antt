-- ===== src/Compiler.antt =====
-- The compiler's back end, crates/luajit-rs/src/compiler: the bytecode format.
pub mod Bc
pub mod Dump
