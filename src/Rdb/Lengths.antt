-- ===== src/Rdb/Lengths.antt =====
-- rdb.c: a length that is saved is loaded again.
use Prim.Native.Nat.{bit_and, bit_or}
use commit_redis.Prelude.{
  ℕ, ◌+◌, ◌*◌, ◌/◌, ◌%◌, ◌^◌, ◌≤◌, ◌<◌, ◌≡◌, refl, ◌∙◌, Bool, true, false, ◌&&◌, ◌==◌, Bool-cases,
  inl, inr, some, List, [], ◌∷◌, ◌++◌, length, ltb, ltb→lt, arith,
}
use commit_redis.Rdb.Defs.{save_len, load_len, buffer_write}
use commit_redis.Rdb.Bytes.{low_byte, or_above, all_below, all_below_lem}

-- The first byte of a 6 bit and of a 14 bit length: its two parts are read back.
abbrev has_parts : ℕ → ℕ → Bool
has_parts kind x =
    let b = bit_or (bit_and x 255) (kind * 64) in
    (bit_and b 192 / 64 == kind) && (bit_and b 63 == x)

parts0 : all_below 64 (has_parts 0) ≡ true
unfolding all_below
parts0 = refl

parts1 : all_below 64 (has_parts 1) ≡ true
unfolding all_below
parts1 = refl

read_parts :
    (kind x : ℕ)
    → has_parts kind x ≡ true
    → (bit_and (bit_or (bit_and x 255) (kind * 64)) 192 / 64 ≡ kind)
      × (bit_and (bit_or (bit_and x 255) (kind * 64)) 63 ≡ x)
read_parts kind x h = (ground arith, ground arith)

append_two : (w : List ℕ) (x : ℕ) (ys : List ℕ) → (w ++ (x ∷ [])) ++ ys ≡ w ++ (x ∷ ys)
append_two [] x ys = refl
append_two (y ∷ w) x ys = rw (append_two w x ys) refl

-- What it is for the bytes of a length to be saved: they are added to the buffer, their number is
-- the answer, and from them and whatever follows the length is loaded, and nothing else is read.
abbrev pub IsSaved : ℕ → List ℕ → Type 0
IsSaved len w =
    (bytes : List ℕ) × (save_len buffer_write w len ≡ (some (length bytes), w ++ bytes))
    × ((rest : List ℕ) → load_len (bytes ++ rest) ≡ (len, false, rest))

short_length : (len : ℕ) (w : List ℕ) → len < 64 → IsSaved len w
unfolding save_len load_len
short_length len w lt =
    let (kind, low) = read_parts 0 len (all_below_lem 64 (has_parts 0) len parts0 lt) in
    let e : ltb len 64 ≡ true = ground arith in
    rw e (bit_or (bit_and len 255) 0 ∷ [], refl, λ rest. rw (kind, low) refl)

middle_length : (len : ℕ) (w : List ℕ) → 64 ≤ len → len < 16384 → IsSaved len w
unfolding save_len load_len
middle_length len w ge lt =
    let h = len / 256 in
    let (kind, low) = read_parts 1 h (all_below_lem 64 (has_parts 1) h parts1 (omega arith)) in
    let e : ltb len 64 ≡ false = ground arith in
    let e' : ltb len 16384 ≡ true = ground arith in
    let whole : bit_or (h * 256) (bit_and len 255) ≡ len =
      rw (low_byte len) (or_above 8 h (len % 256) (omega arith) ∙ omega arith) in
    rw (e, e')
      (bit_or (bit_and h 255) 64 ∷ bit_and len 255 ∷ [], refl, λ rest. rw (kind, low, whole) refl)

long_length : (len : ℕ) (w : List ℕ) → 16384 ≤ len → len < 4294967296 → IsSaved len w
unfolding save_len load_len
long_length len w ge lt =
    let e : ltb len 64 ≡ false = ground arith in
    let e' : ltb len 16384 ≡ false = ground arith in
    let b₃ = len / 16777216 % 256 in
    let b₂ = len / 65536 % 256 in
    let b₁ = len / 256 % 256 in
    let b₀ = len % 256 in
    let whole : b₃ * 16777216 + b₂ * 65536 + b₁ * 256 + b₀ ≡ len = omega arith in
    rw (e, e')
      (
        128 ∷ b₃ ∷ b₂ ∷ b₁ ∷ b₀ ∷ [],
        rw (append_two w 128 (b₃ ∷ b₂ ∷ b₁ ∷ b₀ ∷ [])) refl,
        λ rest. rw whole refl,
      )

-- A length of 32 bits that is saved to a buffer is loaded again, and what follows it is left to
-- read; the answer of the save is the number of bytes that it wrote.
pub load_len-save_len : (len : ℕ) (w : List ℕ) → len < 2 ^ 32 → IsSaved len w
load_len-save_len len w lt = elim (Bool-cases (ltb len 64)) [
  | inl e ↦ short_length len w (ltb→lt len 64 e)
  | inr e ↦ elim (Bool-cases (ltb len 16384)) [
    | inl e' ↦ middle_length len w (ground arith) (ltb→lt len 16384 e')
    | inr e' ↦ long_length len w (ground arith) lt
  ]
]
