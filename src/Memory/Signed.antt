-- ===== src/Memory/Signed.antt =====
-- Two's complement in `w` bytes.
use commit_redis.Prelude.{ℕ, zero, suc, ◌-◌, ◌*◌, ◌%◌, ◌^◌, ◌<◌, ◌≡◌, arith, ltb, if◌then◌else◌}
use native.Mathlib.Nat.{mod-eq_of_lt, mod-lt, pow-suc}
use commit_redis.Prelude.Int.{ℤ, pos, negsuc}

-- The bits that an integer keeps in `w` bytes.
unfoldable pub to_bits : ℕ → ℤ → ℕ
to_bits w (pos n) = n % 256 ^ w
to_bits w (negsuc n) = 256 ^ w - 1 - n % 256 ^ w

-- The integer that `w` bytes stand for.
unfoldable pub of_bits : ℕ → ℕ → ℤ
of_bits w b = if ltb (2 * b) (256 ^ w) then pos b else negsuc (256 ^ w - 1 - b)

-- `v` is a signed integer of `w` bytes.
abbrev pub InWidth : ℕ → ℤ → Type 0
InWidth w (pos n) = 2 * n < 256 ^ w
InWidth w (negsuc n) = 2 * n < 256 ^ w

pub pow-pos : (w : ℕ) → 0 < 256 ^ w
pow-pos zero = omega arith
pow-pos (suc w) = omega (arith, pow-pos w, pow-suc 256 w)

even_power : (w : ℕ) → 0 < w → 256 ^ w ≡ 2 * (128 * 256 ^ (w - 1))
even_power zero h = elim h [ ]
even_power (suc w) h = let e : suc w - 1 ≡ w = omega arith in rw e (omega (arith, pow-suc 256 w))

pub to_bits-lt : (w : ℕ) (v : ℤ) → to_bits w v < 256 ^ w
unfolding to_bits
to_bits-lt w (pos n) = grind (arith, pow-pos w, mod-lt)
to_bits-lt w (negsuc n) = omega (arith, pow-pos w)

pub of_bits-to_bits : (w : ℕ) (v : ℤ) → 0 < w → InWidth w v → of_bits w (to_bits w v) ≡ v
unfolding of_bits to_bits
of_bits-to_bits w (pos n) some_bytes h =
    rw (mod-eq_of_lt {n = n} {m = 256 ^ w} (omega arith)) (ground arith)
of_bits-to_bits w (negsuc n) some_bytes h =
    rw (mod-eq_of_lt {n = n} {m = 256 ^ w} (omega arith))
      (ground (arith, even_power w some_bytes, pow-pos w))

pub of_bits-InWidth : (w b : ℕ) → b < 256 ^ w → InWidth w (of_bits w b)
unfolding of_bits
of_bits-InWidth w b h = ground arith
