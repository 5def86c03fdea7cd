-- ===== src/Compiler/Bc.antt =====
-- The bytecode of crates/luajit-rs/src/compiler/bc.rs: opcodes, operand modes and instruction words.
pub mod Op
pub mod Mode
pub mod Ins
mod Tests
