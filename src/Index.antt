-- ===== src/Index.antt =====
-- src/fs/entry.rs and src/fs/inner.rs: the directory index in memory. `Entry` is an entry, `State` the index
-- with its two lookup tables, `Invariant` says that the tables are the entries', and the rest proves it.
pub mod Entry
pub mod Children
pub mod State
pub mod Tables
pub mod Invariant
pub mod Changes
pub mod Updates
pub mod Names
pub mod Persist
pub mod Saved
pub mod Rebuild
pub mod Remount
pub mod Crash
pub mod Tree
pub mod WellFormed
pub mod Namespace
pub mod Moves
