-- ===== src/Blocks.antt =====
-- src/fs/blocks.rs: a file of plaintext blocks is a file of sealed records. `Layout` has the sizes and
-- offsets, `Ops` the four routines; the other modules prove that they implement a plain file.
pub mod Layout
pub mod Ops
pub mod Stored
pub mod Reads
pub mod Writes
pub mod Truncate
pub mod Refinement
pub mod Bounds
