-- ===== src/Config.antt =====
-- Package encryptedconfigvalue.
pub mod KeyPair
pub mod Algorithms
pub mod StringVar
pub mod StringVars
pub mod Value
pub mod Encrypters
pub mod Serialized
pub mod EndToEnd
pub mod GoValue
pub mod DecryptVars
