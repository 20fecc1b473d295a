-- ===== src/Encryption/Oaep/Padding/Block.antt =====
-- The data block as a concatenation.
use go_encrypted_config_valu.Base.{
  ℕ, suc, ◌+◌, ◌-◌, ◌≤◌, [], ◌∷◌, ◌++◌, Bytes, length, drop, replicate, ◌≡◌, refl, sym, ap, arith,
  ◌∙◌, length-append, length-replicate, replicate-add, take-eq_self, take_left_of_eq,
  drop_left_of_eq, append_assoc, append-nil,
}
use go_encrypted_config_valu.Encryption.Oaep.Padding.{copy_at, data_block}

-- A copy over a part of the same length.
pub copy_at_lem :
    (xs ys zs src : Bytes) (off : ℕ)
    → length xs ≡ off
    → length ys ≡ length src
    → copy_at off src (xs ++ (ys ++ zs)) ≡ xs ++ (src ++ zs)
unfolding copy_at
copy_at_lem xs ys zs src off hx hy =
    let fits : length src ≤ length (xs ++ (ys ++ zs)) - off =
      omega (arith, length-append xs (ys ++ zs), length-append ys zs) in
    let behind : drop (off + length src) (xs ++ (ys ++ zs)) ≡ zs =
      rw (← append_assoc xs ys zs)
        (drop_left_of_eq (off + length src) (xs ++ ys) zs (omega (arith, length-append xs ys))) in
    rw (
      take_left_of_eq off xs (ys ++ zs) hx,
      take-eq_self (length (xs ++ (ys ++ zs)) - off) src fits,
      behind,
    )

-- A block that has room for the digest, the mark and the message is the digest, zeros, the mark and
-- the message.
pub data_block_lem :
    (z : ℕ) (l_hash msg : Bytes) (size : ℕ)
    → size ≡ length l_hash + (z + (1 + length msg))
    → data_block size l_hash msg ≡ l_hash ++ (replicate z 0 ++ (1 ∷ msg))
unfolding data_block
data_block_lem z l_hash msg size e =
    let a = length l_hash in
    let n = length msg in
    let zeros = replicate z 0 in
    let front = l_hash ++ zeros in
    let marked_front = front ++ (1 ∷ []) in
    let front_size : length front ≡ size - n - 1 =
      omega (arith, length-append l_hash zeros, length-replicate {A = ℕ} z 0) in
    let one_more : 1 + n ≡ suc n = omega arith in
    let split_zeros : replicate size 0 ≡ replicate a 0 ++ (zeros ++ (0 ∷ replicate n 0)) =
      rw (e, replicate-add {A = ℕ} a (z + (1 + n)) 0, replicate-add {A = ℕ} z (1 + n) 0)
        (ap (λ k. replicate a 0 ++ (zeros ++ replicate k 0)) one_more) in
    let hashed : copy_at 0 l_hash (replicate size 0) ≡ front ++ ((0 ∷ []) ++ replicate n 0) =
      rw split_zeros (
        copy_at_lem [] (replicate a 0) (zeros ++ (0 ∷ replicate n 0)) l_hash 0 refl
          (length-replicate {A = ℕ} a 0))
      ∙ sym (append_assoc l_hash zeros (0 ∷ replicate n 0)) in
    let marked : copy_at (size - n - 1) (1 ∷ []) (front ++ ((0 ∷ []) ++ replicate n 0))
        ≡ marked_front ++ (replicate n 0 ++ []) =
      copy_at_lem front (0 ∷ []) (replicate n 0) (1 ∷ []) (size - n - 1) front_size refl
      ∙ rw append-nil (sym (append_assoc front (1 ∷ []) (replicate n 0))) in
    let filled : copy_at (size - n) msg (marked_front ++ (replicate n 0 ++ []))
        ≡ marked_front ++ (msg ++ []) =
      copy_at_lem marked_front (replicate n 0) [] msg (size - n)
        (omega (arith, length-append front (1 ∷ []), front_size)) (length-replicate {A = ℕ} n 0) in
    rw (hashed, marked, filled, append-nil, append_assoc front (1 ∷ []) msg)
      (append_assoc l_hash zeros (1 ∷ msg))

pub length-data_block :
    (z : ℕ) (l_hash msg : Bytes) (size : ℕ)
    → size ≡ length l_hash + (z + (1 + length msg))
    → length (data_block size l_hash msg) ≡ size
length-data_block z l_hash msg size e =
    let zeros : Bytes = replicate z 0 in
    rw (data_block_lem z l_hash msg size e) (
      omega (
        arith,
        length-append l_hash (zeros ++ (1 ∷ msg)),
        length-append zeros (1 ∷ msg),
        length-replicate {A = ℕ} z 0,
      ))
