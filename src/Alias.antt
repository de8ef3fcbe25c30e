-- ===== src/Alias.antt =====
-- src/alias: names that an owner gives to secrets. They are stored encrypted, and looked up by a keyed
-- fingerprint.
pub mod Input
pub mod Aad
pub mod Crypto
pub mod Prepare
