-- ===== src/Pattern/Total.antt =====
-- Totality of the functions of crates/luajit-rs/src/stdlib/pattern/engine.rs.
mod Loops
pub mod Close
mod Captures
mod Special
pub mod Inner
pub mod Attempt
pub mod Find
pub mod Gsub
pub mod GsubPlain
pub mod GsubRound
pub mod GsubLoop
pub mod FindAll
