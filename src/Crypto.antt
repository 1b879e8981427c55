-- ===== src/Crypto.antt =====
-- kernel/crypto: the big numbers.
pub mod Bn
