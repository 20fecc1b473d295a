-- ===== src/Tests.antt =====
-- Concrete inputs for the theorems that have hypotheses.
mod Packages
mod Ciphers
mod Values
mod RsaKey
mod RsaFormats
mod ProthKey
mod Rsa
mod RsaConfig
mod RsaNumbers
mod Vars
mod GoValues
