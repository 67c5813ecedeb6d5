-- ===== src/Dict/Hash.antt =====
-- The hash functions of redis-2.6.12/src/dict.c, on machine words of 32 bits.
use Prim.Native.Nat.{bit_xor}
use commit_redis.Prelude.{
  ℕ, ◌+◌, ◌-◌, ◌*◌, ◌/◌, ◌%◌, ◌^◌, ◌≡◌, refl, List, [], ◌∷◌, map, length, arith,
}

-- Sums, products, shifts to the left and complements wrap.
abbrev word : ℕ → ℕ
word n = n % 2 ^ 32

abbrev complement : ℕ → ℕ
complement n = 2 ^ 32 - 1 - n % 2 ^ 32

-- dictIntHashFunction
unfoldable pub dict_int_hash : ℕ → ℕ
dict_int_hash key =
    let k₁ = word (key + complement (key * 2 ^ 15)) in
    let k₂ = bit_xor k₁ (k₁ / 2 ^ 10) in
    let k₃ = word (k₂ + k₂ * 2 ^ 3) in
    let k₄ = bit_xor k₃ (k₃ / 2 ^ 6) in
    let k₅ = word (k₄ + complement (k₄ * 2 ^ 11)) in bit_xor k₅ (k₅ / 2 ^ 16)

-- dictIdentityHashFunction
abbrev pub dict_identity_hash : ℕ → ℕ
dict_identity_hash key = key

abbrev pub murmur_m : ℕ
murmur_m = 0x5bd1e995

-- One round of MurmurHash2 on a word of the input, read with its low byte first.
abbrev murmur_mix : ℕ → ℕ → ℕ
murmur_mix h w =
    let k = word (w * murmur_m) in
    bit_xor (word (h * murmur_m)) (word (bit_xor k (k / 2 ^ 24) * murmur_m))

-- The loop over four bytes at a time and the switch over the last ones.
unfoldable pub murmur_loop : ℕ → List ℕ → ℕ
murmur_loop h [] = h
murmur_loop h (a ∷ []) = word (bit_xor h a * murmur_m)
murmur_loop h (a ∷ b ∷ []) = word (bit_xor (bit_xor h (b * 2 ^ 8)) a * murmur_m)
murmur_loop h (a ∷ b ∷ c ∷ []) =
    word (bit_xor (bit_xor (bit_xor h (c * 2 ^ 16)) (b * 2 ^ 8)) a * murmur_m)
murmur_loop h (a ∷ b ∷ c ∷ d ∷ rest) =
    murmur_loop (murmur_mix h (a + b * 2 ^ 8 + c * 2 ^ 16 + d * 2 ^ 24)) rest

-- dictGenHashFunction; `seed` is the global that dictSetHashFunctionSeed writes.
unfoldable pub dict_gen_hash : ℕ → List ℕ → ℕ
dict_gen_hash seed key =
    let h₁ = murmur_loop (bit_xor seed (word (length key))) key in
    let h₂ = word (bit_xor h₁ (h₁ / 2 ^ 13) * murmur_m) in bit_xor h₂ (h₂ / 2 ^ 15)

-- dictGenCaseHashFunction; `tolower` is the C library's.
unfoldable pub case_hash_loop : (ℕ → ℕ) → ℕ → List ℕ → ℕ
case_hash_loop tolower hash [] = hash
case_hash_loop tolower hash (c ∷ buf) =
    case_hash_loop tolower (word (word (hash * 2 ^ 5) + hash + tolower c)) buf

abbrev pub dict_gen_case_hash : (ℕ → ℕ) → ℕ → List ℕ → ℕ
dict_gen_case_hash tolower seed buf = case_hash_loop tolower (word seed) buf

case_hash_eq :
    (tolower : ℕ → ℕ) (hash : ℕ) (s t : List ℕ)
    → map tolower s ≡ map tolower t
    → case_hash_loop tolower hash s ≡ case_hash_loop tolower hash t
unfolding case_hash_loop
case_hash_eq tolower hash [] [] e = refl
case_hash_eq tolower hash [] (b ∷ t) e = absurd (grind arith)
case_hash_eq tolower hash (a ∷ s) [] e = absurd (grind arith)
case_hash_eq tolower hash (a ∷ s) (b ∷ t) e =
    let heads : tolower a ≡ tolower b = cc in
    let tails : map tolower s ≡ map tolower t = cc in
    rw heads (case_hash_eq tolower (word (word (hash * 2 ^ 5) + hash + tolower b)) s t tails)

-- Keys that differ in case only have the same hash, as a dictionary with a comparison that ignores
-- case asks for.
pub dict_gen_case_hash_lem :
    (tolower : ℕ → ℕ) (seed : ℕ) (s t : List ℕ)
    → map tolower s ≡ map tolower t
    → dict_gen_case_hash tolower seed s ≡ dict_gen_case_hash tolower seed t
dict_gen_case_hash_lem tolower seed s t e = case_hash_eq tolower (word seed) s t e
