-- ===== src/Intset/Encoding.antt =====
-- _intsetValueEncoding of redis-2.6.12/src/intset.c: the width of a value.
use commit_redis.Prelude.{ℕ, ◌<◌, ◌≤◌, ◌≡◌, ◌⊎◌, inl, inr, arith}
use commit_redis.Prelude.Int.{ℤ, pos, negsuc}
use commit_redis.Memory.Signed.{InWidth}
use commit_redis.Intset.Defs.{value_encoding, width}

-- An encoding of an intset.
abbrev pub IsEncoding : ℕ → Type 0
IsEncoding e = (e ≡ 2) ⊎ (e ≡ 4) ⊎ (e ≡ 8)

pub width_eq : (e : ℕ) → IsEncoding e → width e ≡ e
width_eq e h = ground arith

-- `v` is an `int64_t`.
abbrev pub IsInt64 : ℤ → Type 0
IsInt64 v = InWidth 8 v

pub value_encoding_valid : (v : ℤ) → IsEncoding (value_encoding v)
unfolding value_encoding
value_encoding_valid v = ground arith

-- _intsetValueEncoding chooses the first width that holds the value.
pub value_encoding_fits :
    (v : ℤ) (e : ℕ)
    → IsInt64 v
    → IsEncoding e
    → (value_encoding v ≤ e → InWidth (width e) v) × (e < value_encoding v → ¬ InWidth (width e) v)
unfolding value_encoding
value_encoding_fits (pos n) e h (inl two) = (ground arith, ground arith)
value_encoding_fits (pos n) e h (inr (inl four)) = (ground arith, ground arith)
value_encoding_fits (pos n) e h (inr (inr eight)) = (ground arith, ground arith)
value_encoding_fits (negsuc n) e h (inl two) = (ground arith, ground arith)
value_encoding_fits (negsuc n) e h (inr (inl four)) = (ground arith, ground arith)
value_encoding_fits (negsuc n) e h (inr (inr eight)) = (ground arith, ground arith)
