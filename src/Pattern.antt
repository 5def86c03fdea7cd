-- ===== src/Pattern.antt =====
-- crates/luajit-rs/src/stdlib/pattern: Lua patterns, matched by backtracking over bytes.
-- An index into the pattern, `pat` with `pp`, is the rest of the pattern from that index on, as a
-- pointer in C. The text keeps its indices, since captures record them.
pub mod Class
pub mod Error
pub mod Validate
pub mod State
pub mod Repeat
pub mod Match
pub mod Plain
pub mod Find
pub mod Gsub
pub mod FindAll
mod Tests
pub mod Safe
pub mod Invariant
pub mod Total
