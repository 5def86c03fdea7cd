-- ===== src/Compiler/Dump.antt =====
-- Precompiled chunks: crates/luajit-rs/src/compiler/dump.rs and undump.rs, with the prototypes of
-- crates/luajit-rs/src/runtime/proto.rs.
pub mod Proto
pub mod Writer
pub mod Reader
pub mod Same
pub mod Parses
pub mod Trip
pub mod RoundTrip
pub mod Chunk
pub mod Ends
pub mod Header
mod Tests
