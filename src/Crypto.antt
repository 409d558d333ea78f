-- ===== src/Crypto.antt =====
-- src/crypto: the crates it calls (an interface), the blob formats, the keys, the header, the
-- identities and the volume on disk.
pub mod Primitives
pub mod Header
pub mod Aead
pub mod Keys
pub mod Identity
pub mod Volume
