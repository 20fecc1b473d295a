-- ===== src/Encryption/Oaep/Mask/Count.antt =====
-- The counter of the mask, as a number.
use go_encrypted_config_valu.Base.{ℕ, ◌+◌, ◌*◌, ◌%◌, ◌^◌, ◌≡◌, arith, IsBytes}
use go_encrypted_config_valu.Encryption.Oaep.Mask.{Counter, inc_counter, counter_bytes}

-- The number that the four bytes spell.
abbrev pub count : Counter → ℕ
count c = c.c0 * 2 ^ 24 + c.c1 * 2 ^ 16 + c.c2 * 2 ^ 8 + c.c3

-- incCounter adds one to the four bytes as a big-endian number modulo 2 ^ 32, and leaves bytes.
pub inc_counter_lem :
    (c : Counter)
    → IsBytes (counter_bytes c)
    → (count (inc_counter c) ≡ (count c + 1) % 2 ^ 32) × IsBytes (counter_bytes (inc_counter c))
unfolding inc_counter
inc_counter_lem c h = ground arith
