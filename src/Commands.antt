-- ===== src/Commands.antt =====
-- src/cli.rs and src/commands.rs: credentials, and the commands that change the slots of a volume.
pub mod Credentials
pub mod Keygen
pub mod Issue
pub mod Slots
pub mod Share
pub mod Rekey
pub mod Rewrapped
pub mod Reindexed
pub mod Revoke
