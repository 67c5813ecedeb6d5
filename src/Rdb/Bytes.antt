-- ===== src/Rdb/Bytes.antt =====
-- The bit operations that rdb.c packs bytes with, as arithmetic.
use Prim.Native.Nat.{min, max, bit_and, bit_or, digits, bit_and-bitwise, bit_or-bitwise, ◌/◌, ◌%◌}
use native.Mathlib.Nat.{pow-suc}
use commit_redis.Prelude.{ℕ, zero, suc, ◌+◌, ◌*◌, ◌^◌, ◌≤◌, ◌<◌, ◌≡◌, refl, Bool, true, ◌&&◌, arith}

module _ (z : ℕ → ℕ) (f : ℕ → ℕ → ℕ) where
  abbrev run : ℕ → ℕ → ℕ → ℕ
  run n a b = digits z f n a b

  -- More rounds than the first number needs change nothing.
  run_fuel : (n m a b : ℕ) → a ≤ n → a ≤ m → run n a b ≡ run m a b
  run_fuel zero zero a b p q = refl
  run_fuel zero (suc m) zero b p q = refl
  run_fuel zero (suc m) (suc a) b p q = absurd (omega arith)
  run_fuel (suc n) zero zero b p q = refl
  run_fuel (suc n) zero (suc a) b p q = absurd (omega arith)
  run_fuel (suc n) (suc m) zero b p q = refl
  run_fuel (suc n) (suc m) (suc a) b p q =
      omega (arith, run_fuel n m (suc a / 2) (b / 2) (omega arith) (omega arith))

and_zero : (b : ℕ) → bit_and 0 b ≡ 0
and_zero b = bit_and-bitwise 0 b

or_zero : (b : ℕ) → bit_or 0 b ≡ b
or_zero b = bit_or-bitwise 0 b

and_step : (a b : ℕ) → bit_and a b ≡ bit_and (a / 2) (b / 2) * 2 + min (a % 2) (b % 2)
and_step zero b = omega (arith, and_zero b, and_zero (b / 2))
and_step (suc a) b = omega (
  arith,
  bit_and-bitwise (suc a) b,
  bit_and-bitwise (suc a / 2) (b / 2),
  run_fuel (λ b. zero) min a (suc a / 2) (suc a / 2) (b / 2) (omega arith) (omega arith),
)

or_step : (a b : ℕ) → bit_or a b ≡ bit_or (a / 2) (b / 2) * 2 + max (a % 2) (b % 2)
or_step zero b = omega (arith, or_zero b, or_zero (b / 2))
or_step (suc a) b = omega (
  arith,
  bit_or-bitwise (suc a) b,
  bit_or-bitwise (suc a / 2) (b / 2),
  run_fuel (λ b. b) max a (suc a / 2) (suc a / 2) (b / 2) (omega arith) (omega arith),
)

and_empty : (n a : ℕ) → a ≤ n → bit_and a 0 ≡ 0
and_empty n zero h = refl
and_empty zero (suc a) h = absurd (omega arith)
and_empty (suc n) (suc a) h =
    omega (arith, and_step (suc a) 0, and_empty n (suc a / 2) (omega arith))

or_empty : (n a : ℕ) → a ≤ n → bit_or a 0 ≡ a
or_empty n zero h = refl
or_empty zero (suc a) h = absurd (omega arith)
or_empty (suc n) (suc a) h = omega (arith, or_step (suc a) 0, or_empty n (suc a / 2) (omega arith))

-- A mask of ones keeps the low digits: one more digit for one more step.
mask1 : (a : ℕ) → bit_and a 1 ≡ a % 2
mask1 a = omega (arith, and_step a 1, and_empty (a / 2) (a / 2) (omega arith))

mask3 : (a : ℕ) → bit_and a 3 ≡ a % 4
mask3 a = omega (arith, and_step a 3, mask1 (a / 2))

mask7 : (a : ℕ) → bit_and a 7 ≡ a % 8
mask7 a = omega (arith, and_step a 7, mask3 (a / 2))

mask15 : (a : ℕ) → bit_and a 15 ≡ a % 16
mask15 a = omega (arith, and_step a 15, mask7 (a / 2))

mask31 : (a : ℕ) → bit_and a 31 ≡ a % 32
mask31 a = omega (arith, and_step a 31, mask15 (a / 2))

mask63 : (a : ℕ) → bit_and a 63 ≡ a % 64
mask63 a = omega (arith, and_step a 63, mask31 (a / 2))

mask127 : (a : ℕ) → bit_and a 127 ≡ a % 128
mask127 a = omega (arith, and_step a 127, mask63 (a / 2))

-- `a & 0xFF` is the low byte.
pub low_byte : (a : ℕ) → bit_and a 255 ≡ a % 256
low_byte a = omega (arith, and_step a 255, mask127 (a / 2))

-- Numbers with no digit in common are added by `|`, whichever is the higher.
pub or_above : (k h c : ℕ) → c < 2 ^ k → bit_or (h * 2 ^ k) c ≡ h * 2 ^ k + c
or_above zero h c lt =
    let none_left : c ≡ 0 = omega arith in
    rw none_left (omega (arith, or_empty (h * 1) (h * 1) (omega arith)))
or_above (suc k) h c lt =
    let p : 2 ^ suc k ≡ 2 ^ k * 2 = pow-suc 2 k in
    let n = h * 2 ^ k in
    let e : h * 2 ^ suc k ≡ n * 2 = rw p (omega arith) in
    let half : n * 2 / 2 ≡ n = omega arith in
    let even : n * 2 % 2 ≡ 0 = omega arith in
    let ih = or_above k h (c / 2) (omega arith) in
    let step = or_step (n * 2) c in rw e (omega (arith, rw (half, even, ih) at step))

pub or_below : (k h c : ℕ) → c < 2 ^ k → bit_or c (h * 2 ^ k) ≡ h * 2 ^ k + c
or_below zero h c lt =
    let none_left : c ≡ 0 = omega arith in rw none_left (omega (arith, or_zero (h * 1)))
or_below (suc k) h c lt =
    let p : 2 ^ suc k ≡ 2 ^ k * 2 = pow-suc 2 k in
    let n = h * 2 ^ k in
    let e : h * 2 ^ suc k ≡ n * 2 = rw p (omega arith) in
    let half : n * 2 / 2 ≡ n = omega arith in
    let even : n * 2 % 2 ≡ 0 = omega arith in
    let ih = or_below k h (c / 2) (omega arith) in
    let step = or_step c (n * 2) in rw e (omega (arith, rw (half, even, ih) at step))

-- Over a small range, every value by evaluation.
unfoldable pub all_below : ℕ → (ℕ → Bool) → Bool
all_below zero p = true
all_below (suc n) p = p n && all_below n p

pub all_below_lem : (n : ℕ) (p : ℕ → Bool) (x : ℕ) → all_below n p ≡ true → x < n → p x ≡ true
unfolding all_below
all_below_lem zero p x h lt = absurd (omega arith)
all_below_lem (suc n) p x h lt = ground (arith, all_below_lem n p x)
