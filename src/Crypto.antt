-- ===== src/Crypto.antt =====
-- packages/crypto: the vault, and how its entries are read.
pub mod UseCredential
pub mod Vault
