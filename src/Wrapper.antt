-- ===== src/Wrapper.antt =====
-- The wrapper of src/fs/wrapper.rs: requests that are answered at once, and jobs that worker threads run.
pub mod State
pub mod Requests
pub mod Jobs
pub mod Steps
pub mod Invariant
pub mod Locks
pub mod Isolation
pub mod Handled
pub mod Rooted
pub mod Current
pub mod Drain
pub mod Finish
pub mod Unmount
