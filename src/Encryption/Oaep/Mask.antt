-- ===== src/Encryption/Oaep/Mask.antt =====
-- incCounter and mgf1XOR. A mask is written over `out` byte by byte; here the function returns what
-- `out` holds at the end. `out` and `seed` are disjoint parts of one array in each of its calls.
pub mod Count
pub mod Mgf
use go_encrypted_config_valu.Base.{
  ℕ, zero, suc, ◌+◌, ◌%◌, Bool, not, List, [], ◌∷◌, ◌++◌, bit_xor, Bytes, length, ◌==◌,
  if◌then◌else◌,
}
use go_encrypted_config_valu.Base.Outcome.{Outcome, ok, starved, ◌>>=◌}

-- A hash: the size of its digests, and the digest of all bytes written since the last Reset.
pub record Hash : Type 0 where
  pub size : ℕ
  pub sum : Bytes → Bytes

-- The array `[4]byte`.
pub record Counter : Type 0 where
  pub c0 : ℕ
  pub c1 : ℕ
  pub c2 : ℕ
  pub c3 : ℕ

abbrev bump : ℕ → ℕ
bump c = (c + 1) % 256

pub inc_counter : Counter → Counter
inc_counter c =
    if not (bump c.c3 == 0)
    then record c { c3 = bump c.c3 }
    else if not (bump c.c2 == 0)
    then record c { c3 = bump c.c3; c2 = bump c.c2 }
    else if not (bump c.c1 == 0)
    then record c { c3 = bump c.c3; c2 = bump c.c2; c1 = bump c.c1 }
    else record { c3 = bump c.c3; c2 = bump c.c2; c1 = bump c.c1; c0 = bump c.c0 }

abbrev pub counter_bytes : Counter → Bytes
counter_bytes c = c.c0 ∷ c.c1 ∷ c.c2 ∷ c.c3 ∷ []

-- The inner loop: the bytes that it has masked, and the bytes of `out` behind `done`.
pub xor_digest : Bytes → Bytes → Bytes × Bytes
xor_digest [] digest = ([], [])
xor_digest (o ∷ out) [] = ([], o ∷ out)
xor_digest (o ∷ out) (d ∷ digest) =
    let (masked, left) = xor_digest out digest in (bit_xor o d ∷ masked, left)

-- The outer loop. It does not end where the digests are empty, so it has fuel.
pub mgf1_loop : ℕ → Hash → Bytes → Counter → Bytes → Outcome Bytes
mgf1_loop fuel hash seed counter [] = ok []
mgf1_loop zero hash seed counter (o ∷ out) = starved
mgf1_loop (suc fuel) hash seed counter (o ∷ out) =
    let (masked, left) = xor_digest (o ∷ out) (hash.sum (seed ++ counter_bytes counter)) in
    do rest ← mgf1_loop fuel hash seed (inc_counter counter) left; ok (masked ++ rest)

-- A round masks at least one byte, so `len(out)` rounds are enough.
pub mgf1_xor : Bytes → Hash → Bytes → Outcome Bytes
mgf1_xor out hash seed =
    mgf1_loop (length out) hash seed (record { c0 = 0; c1 = 0; c2 = 0; c3 = 0 }) out
