-- ===== src/Lib.antt =====
-- A model of go-encrypted-config-value: encrypted values in configuration files, and the keys that
-- encrypt and decrypt them.
--
-- The program has two packages. `encryption` has the keys (aeskey.go, rsakey.go), an AES-GCM cipher
-- (aesgcmcipher.go) and an RSA-OAEP cipher (rsaoaepcipher.go) over a port of Go's OAEP that takes a
-- hash of its own for the mask (go_rsa_oaep_port.go). `encryptedconfigvalue` wraps a key with its type
-- (keypair.go, algorithms.go) and a ciphertext with what its decryption needs (encryptedvalue.go,
-- aesgcm.go, rsaoaep.go, legacy_encryptedvalue.go), prints and parses both, and decrypts the variables
-- `${enc:...}` in a text (stringvars.go) and in the strings of a Go value (decryptvars.go).
--
-- Base: numbers, lists, bytes, slices as Go cuts them, integers, residues, exclusive or, and outcomes;
--   the number theory that RSA stands on (Prime, Binomial, Fermat, Coprime), and Proth's
--   theorem for the primes of the test key (Proth); lists related one by one (Pairwise).
--   A Go call gives `ok` with a value, `err` with one of the program's errors, or `panic`; a loop that
--   has not ended within its fuel is `starved`. Error texts are not modelled: an error is the place it
--   is from.
-- Base64: the standard encoding of encoding/base64 with padding; decoding skips line breaks.
-- External: the packages that the program calls, as records of operations and of their documented laws.
--   A theorem takes the laws it uses as hypotheses. Tests/Packages has an instance that meets them all.
-- Encryption/Exec: calls that use the random generator pass its state on. RandomBytes of random.go.
--   Exec/Keeps has the rules for what a call leaves true of the state.
-- Encryption/Keys: cipher.go, aeskey.go, rsakey.go. Keys/Generate makes keys; Keys/Formats reads back.
-- Encryption/AesGcm: aesgcmcipher.go, with Encrypt of the cipher in AesGcm/Encrypt.
-- Encryption/Oaep: go_rsa_oaep_port.go. Mask has incCounter and mgf1XOR, Padding the data block, the
--   scan of decryptOAEP and leftPad, BigInt the operations of math/big, Crt and Rsa the operations on
--   numbers, with keys as crypto/rsa documents them in Rsa/ValidKey and the draws of the blinding
--   in Rsa/Draws, Message what stands between the numbers and the text, and Scheme encryptOAEP and
--   decryptOAEP.
-- Encryption/RsaOaep: rsaoaepcipher.go.
-- Config/KeyPair: keypair.go, the key types of algorithms.go, the constructors of rsakeys.go, aeskey.go.
-- Config/Algorithms: the algorithm types of algorithms.go, and the key pairs of rsakeys.go, aeskey.go.
-- Config/Value: encryptedvalue.go and the value types of aesgcm.go and rsaoaep.go; Value/Decrypt has
--   the methods Decrypt, also that of legacy_encryptedvalue.go.
-- Config/Serialized: the functions of keypair.go and encryptedvalue.go that panic on errors.
-- Config/Encrypters: the encrypters of aesgcm.go and rsaoaep.go.
-- Config/StringVar and Config/StringVars: stringvars.go. StringVars/Document has texts of variables, Normalize
--   what the normalization returns, with its map in Normalize/Table, and Meaning, Converse and
--   Occurrence what the decryption of a text and the search mean.
-- Config/GoValue and Config/DecryptVars: decryptvars.go. Values are trees of the kinds that the switch
--   tells apart, with addresses into a heap of variables, arrays of slices and maps; the walk of a
--   location returns what it holds at the end. DecryptVars/Shape, Unexported, Frame, HiddenMap,
--   Ending, AesEnding, Spec, Referred and Strings have what is proved of it.
-- Config/EndToEnd: encryption, printing, parsing and decryption together, for AES, in Rsa for RSA, and in
--   ValidKey for the RSA keys that crypto/rsa documents.
-- Tests: the theorems at concrete inputs.
--
-- Bytes are natural numbers, below 256 where it matters (IsBytes); strings are bytes. A big.Int of the
-- program is a natural number, and an integer where it may be negative (modInverse, the CRT
-- difference). Fuel: mgf1XOR runs for as many rounds as there are bytes, and a round masks at least
-- one; Euclid's algorithm has one more than the second number, which falls; the digits of a number are
-- fewer than it. The search for a blinding number may go on for ever in the source, so its rounds are a
-- parameter. The walk of a Go value follows references for ever where they go round; its fuel is for the
-- length of a chain of references.
--
-- Not modelled: pointers into the middle of a variable and slices that share a part of an array; values
-- of the kinds that hold no strings, beyond a number for each; timing; the
-- vendored packages.
pub mod Base
pub mod Base64
pub mod Config
pub mod Encryption
pub mod External
pub mod Tests
