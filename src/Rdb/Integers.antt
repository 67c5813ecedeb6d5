-- ===== src/Rdb/Integers.antt =====
-- rdb.c: an integer that is encoded is loaded again.
use Prim.Native.Nat.{bit_and, bit_or}
use commit_redis.Prelude.{
  ℕ, ◌+◌, ◌*◌, ◌/◌, ◌%◌, ◌≡◌, refl, ◌∙◌, Bool, true, false, ◌&&◌, not, Bool-cases, inl, inr, some,
  List, ◌∷◌, ◌++◌, arith,
}
use commit_redis.Prelude.Int.{ℤ, pos, negsuc, ltb_ℤ}
use commit_redis.Memory.Signed.{to_bits, InWidth, of_bits-to_bits}
use commit_redis.Rdb.Defs.{encode_integer, load_integer, load_len}
use commit_redis.Rdb.Bytes.{low_byte, or_below}

-- The test of a range of `w` bytes, with its highest positive number.
abbrev fits : ℕ → ℤ → Bool
fits top value = not (ltb_ℤ value (negsuc top)) && not (ltb_ℤ (pos top) value)

fits1 : (v : ℤ) → fits 127 v ≡ true → InWidth 1 v
fits1 (pos n) h = ground arith
fits1 (negsuc n) h = ground arith

fits2 : (v : ℤ) → fits 32767 v ≡ true → InWidth 2 v
fits2 (pos n) h = ground arith
fits2 (negsuc n) h = ground arith

fits4 : (v : ℤ) → InWidth 4 v → fits 2147483647 v ≡ true
fits4 (pos n) h = ground arith
fits4 (negsuc n) h = ground arith

-- The low bytes of a value of eight bytes are those of the shorter value.
low_bits1 : (v : ℤ) → InWidth 1 v → to_bits 8 v % 256 ≡ to_bits 1 v
unfolding to_bits
low_bits1 (pos n) h = omega arith
low_bits1 (negsuc n) h = omega arith

low_bits2 : (v : ℤ) → InWidth 2 v → to_bits 8 v % 65536 ≡ to_bits 2 v
unfolding to_bits
low_bits2 (pos n) h = omega arith
low_bits2 (negsuc n) h = omega arith

low_bits4 : (v : ℤ) → InWidth 4 v → to_bits 8 v % 4294967296 ≡ to_bits 4 v
unfolding to_bits
low_bits4 (pos n) h = omega arith
low_bits4 (negsuc n) h = omega arith

two_bytes : (v : ℕ) → bit_or (bit_and v 255) (bit_and (v / 256) 255 * 256) ≡ v % 65536
two_bytes v =
    rw (low_byte v, low_byte (v / 256))
      (or_below 8 (v / 256 % 256) (v % 256) (omega arith) ∙ omega arith)

four_bytes :
    (v : ℕ)
    → bit_or
        (bit_or
          (bit_or (bit_and v 255) (bit_and (v / 256) 255 * 256))
          (bit_and (v / 65536) 255 * 65536))
        (bit_and (v / 16777216) 255 * 16777216)
      ≡ v % 4294967296
four_bytes v =
    rw
      (
        two_bytes v,
        low_byte (v / 65536),
        low_byte (v / 16777216),
        or_below 16 (v / 65536 % 256) (v % 65536) (omega arith),
      )
      (or_below 24 (v / 16777216 % 256) (v / 65536 % 256 * 65536 + v % 65536) (omega arith)
        ∙ omega arith)

-- What it is for the bytes of an encoding to stand for a value: the first is read as an encoding,
-- and the integer loaded under it is the value, with nothing read of what follows.
abbrev pub IsEncoded : ℤ → List ℕ → List ℕ → Type 0
IsEncoded v bytes rest =
    (kind : ℕ) × (payload : List ℕ) × (load_len (bytes ++ rest) ≡ (kind, true, payload))
    × (load_integer kind payload ≡ some (v, rest))

encoded1 : (v : ℤ) (rest : List ℕ) → fits 127 v ≡ true → IsEncoded v (encode_integer v) rest
unfolding encode_integer load_len load_integer
encoded1 v rest h =
    let w = fits1 v h in
    rw h (
      0,
      bit_and (to_bits 8 v) 255 ∷ rest,
      refl,
      rw (low_byte (to_bits 8 v), low_bits1 v w, of_bits-to_bits 1 v (omega arith) w) refl,
    )

encoded2 :
    (v : ℤ) (rest : List ℕ)
    → fits 127 v ≡ false
    → fits 32767 v ≡ true
    → IsEncoded v (encode_integer v) rest
unfolding encode_integer load_len load_integer
encoded2 v rest wide h =
    let w = fits2 v h in
    let x = to_bits 8 v in
    rw (wide, h)
      (
        1,
        bit_and x 255 ∷ bit_and (x / 256) 255 ∷ rest,
        refl,
        rw (two_bytes x, low_bits2 v w, of_bits-to_bits 2 v (omega arith) w) refl,
      )

encoded4 :
    (v : ℤ) (rest : List ℕ)
    → fits 127 v ≡ false
    → fits 32767 v ≡ false
    → InWidth 4 v
    → IsEncoded v (encode_integer v) rest
unfolding encode_integer load_len load_integer
encoded4 v rest wide wide' w =
    let x = to_bits 8 v in
    rw (wide, wide', fits4 v w)
      (
        2,
        bit_and x 255
            ∷ bit_and (x / 256) 255
            ∷ bit_and (x / 65536) 255
            ∷ bit_and (x / 16777216) 255
            ∷ rest,
        refl,
        rw (four_bytes x, low_bits4 v w, of_bits-to_bits 4 v (omega arith) w) refl,
      )

-- An integer of 32 bits is encoded in one, two or four bytes behind a byte that rdbLoadLen reports as
-- an encoding; rdbLoadIntegerObject on that encoding gives the integer back and stops behind it.
pub load_integer-encode_integer :
    (v : ℤ) (rest : List ℕ) → InWidth 4 v → IsEncoded v (encode_integer v) rest
load_integer-encode_integer v rest w = elim (Bool-cases (fits 127 v)) [
  | inl e ↦ encoded1 v rest e
  | inr e ↦ elim (Bool-cases (fits 32767 v)) [
    | inl e' ↦ encoded2 v rest e e'
    | inr e' ↦ encoded4 v rest e e' w
  ]
]
