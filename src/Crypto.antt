-- ===== src/Crypto.antt =====
-- The package crypto.
pub mod Gf256
pub mod Field
pub mod Shamir
pub mod HashChain
pub mod Aead
pub mod Ratchet
pub mod Seal
