-- ===== src/Util.antt =====
-- The repository's util: the encryption of passwords, and the texts of hashes. Other functions of it
-- stand where they are used.
pub mod Cipher
pub mod Hashes
