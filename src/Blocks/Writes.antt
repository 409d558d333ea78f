-- ===== src/Blocks/Writes.antt =====
-- `write_range` on a data file does what a write does to a plain file.
pub mod Patch
pub mod Records
pub mod Loop
pub mod Range
