-- ===== src/Runtime.antt =====
-- The data that programs run on, crates/luajit-rs/src/runtime.
pub mod Table
mod Tests
