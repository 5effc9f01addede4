-- ===== src/RoundTrip.antt =====
-- A chunk that ldump.c wrote to memory is read back by lundump.c.
pub mod Sync
pub mod Blocks
pub mod Varint
pub mod Strings
pub mod Arrays
pub mod Debugs
pub mod Functions
pub mod Growth
pub mod Chunk
mod Tests
