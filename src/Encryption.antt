-- ===== src/Encryption.antt =====
-- Package encryption: keys, the AES-GCM cipher and the RSA-OAEP cipher.
pub mod Exec
pub mod Keys
pub mod AesGcm
pub mod Oaep
pub mod RsaOaep
