-- ===== src/Encryption/Oaep.antt =====
-- encryption/go_rsa_oaep_port.go, in one module for each group of its functions.
pub mod Mask
pub mod BigInt
pub mod Crt
pub mod Rsa
pub mod Padding
pub mod Message
pub mod Scheme
