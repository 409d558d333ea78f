-- ===== src/Crypto/Volume.antt =====
-- src/crypto/volume.rs: key slots, the header on disk, and the swap of header and index.
pub mod Slots
pub mod Opening
pub mod Store
pub mod Crash
pub mod Mac
pub mod Reopen
pub mod Rewrite
