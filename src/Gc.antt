-- ===== src/Gc.antt =====
-- The generational collector's object headers, crates/luajit-rs/src/runtime/gc_gen.
pub mod Header
mod Tests
