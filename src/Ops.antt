-- ===== src/Ops.antt =====
-- The handlers of src/fs/ops.rs. A reply is a result: what the handler answers, or the errno code.
-- `Data` has the contents of files, `Tree` what adds, removes and moves entries, `Attrs` the attributes.
pub mod Data
pub mod Content
pub mod Tree
pub mod Ancestors
pub mod Moving
pub mod Rooted
pub mod Placed
pub mod Applied
pub mod Emptied
pub mod Removal
pub mod Steps
pub mod Creation
pub mod Unlinking
pub mod Renaming
pub mod Success
pub mod Evolution
pub mod Attributes
pub mod Attrs
