-- ===== src/Util/Parse.antt =====
-- Printing and parsing integers are inverse to one another.
use native.Mathlib.Nat.{pow-suc}
use commit_redis.Prelude.{
  ℕ, zero, suc, ◌+◌, ◌-◌, ◌*◌, ◌/◌, ◌%◌, ◌^◌, ◌<◌, ◌≤◌, ◌≡◌, ◌≢◌, refl, ◌∙◌, inl, inr, true, false,
  some, List, [], ◌∷◌, ltb, leb, ◌==◌, ◌&&◌, Bool-cases, arith, length, is_nil,
}
use commit_redis.Prelude.Int.{ℤ, pos, negsuc}
use commit_redis.Util.Number.{
  digits_loop, ll2string, ullong_max, is_digit, parse_digits, parse_number, in_range, string2ll,
}

-- A string that starts with a digit from 1 to 9.
abbrev Starts : List ℕ → Type 0
Starts [] = ⊥
Starts (c ∷ r) = (b'1' ≤ c) × (c ≤ b'9')

fuel_left : (fuel v : ℕ) → v / 10 ≢ 0 → v < 10 ^ suc fuel → 0 < fuel
fuel_left zero v more h = absurd (omega arith)
fuel_left (suc fuel) v more h = omega arith

-- Reading the last digit of `v` behind the others.
digit_step :
    (v : ℕ) (acc : List ℕ)
    → v ≤ ullong_max
    → parse_digits ((b'0' + v % 10) ∷ acc) (v / 10) ≡ parse_digits acc v
unfolding parse_digits
digit_step v acc m =
    let e : v / 10 * 10 + (b'0' + v % 10 - b'0') ≡ v = omega arith in
    let digit : is_digit (b'0' + v % 10) ≡ true = ground arith in
    let small : ltb (ullong_max / 10) (v / 10) ≡ false = ground arith in
    let sum_fits : ltb (ullong_max - (b'0' + v % 10 - b'0')) (v / 10 * 10) ≡ false = ground arith in
    rw (e, digit, small, sum_fits) refl

-- The loop ends when its fuel covers the digits, and parsing gives the number back.
digits_parse :
    (fuel v : ℕ) (acc : List ℕ)
    → v < 10 ^ fuel
    → v ≤ ullong_max
    → 0 < fuel
    → (s : List ℕ) × (digits_loop fuel v acc ≡ some s)
      × (parse_digits s 0 ≡ parse_digits acc v)
      × (0 < v → Starts s)
      × (length s ≤ length acc + fuel)
unfolding digits_loop parse_digits
digits_parse zero v acc h m f = absurd (omega arith)
digits_parse (suc fuel) v acc h m f = elim (Bool-cases (v / 10 == 0)) [
  | inl last ↦ ((b'0' + v % 10) ∷ acc, rw last refl, ground arith, ground arith, omega arith)
  | inr more ↦
      let (s, runs, parses, starts, len) =
        digits_parse fuel (v / 10) ((b'0' + v % 10) ∷ acc) (omega (arith, pow-suc 10 fuel))
          (omega arith) (fuel_left fuel v (ground arith) h) in
      (s, rw more runs, parses ∙ digit_step v acc m, λ p. starts (ground arith), omega arith)
]

-- The first digit is read as the others are.
parse_number-eq : (s : List ℕ) → Starts s → parse_number s ≡ parse_digits s 0
unfolding parse_number parse_digits
parse_number-eq [] h = absurd h
parse_number-eq (c ∷ r) (lo, hi) =
    let first : leb b'1' c && leb c b'9' ≡ true = ground arith in
    let digit : is_digit c ≡ true = ground arith in
    let fits : ltb (ullong_max - (c - b'0')) (0 * 10) ≡ false = ground arith in
    let e : 0 * 10 + (c - b'0') ≡ c - b'0' = omega arith in rw (first, digit, fits, e) refl

string2ll_pos :
    (s : List ℕ) (v : ℕ) → Starts s → parse_digits s 0 ≡ some v → string2ll s ≡ in_range false v
unfolding string2ll
string2ll_pos [] v h e = absurd h
string2ll_pos (c ∷ r) v (lo, hi) e =
    let not_zero : is_nil r && c == b'0' ≡ false = ground arith in
    let not_minus : (c == b'-') ≡ false = ground arith in
    rw (not_zero, not_minus, parse_number-eq (c ∷ r) (lo, hi), e) refl

string2ll_neg :
    (s : List ℕ) (v : ℕ)
    → Starts s
    → parse_digits s 0 ≡ some v
    → string2ll (b'-' ∷ s) ≡ in_range true v
unfolding string2ll
string2ll_neg [] v h e = absurd h
string2ll_neg (c ∷ r) v h e = rw (parse_number-eq (c ∷ r) h, e) refl

-- What an `int64_t` is, by sign and magnitude.
abbrev pub IsLongLong : ℤ → Type 0
IsLongLong (pos n) = n < 2 ^ 63
IsLongLong (negsuc n) = n < 2 ^ 63

-- string2ll reads back what ll2string printed into a buffer of 22 bytes or more.
pub string2ll-ll2string :
    (len : ℕ) (value : ℤ)
    → IsLongLong value
    → 22 ≤ len
    → (s : List ℕ) × (ll2string len value ≡ some s) × (string2ll s ≡ some value)
unfolding ll2string string2ll parse_digits
string2ll-ll2string len (pos zero) ok room =
    let buffer : (len == 0) ≡ false = ground arith in
    let fits : ltb len 2 ≡ false = ground arith in
    (b'0' ∷ [], unfold digits_loop in rw (buffer, fits) refl, refl)
string2ll-ll2string len (pos (suc n)) ok room =
    let buffer : (len == 0) ≡ false = ground arith in
    let (s, runs, parses, starts, short) =
      digits_parse 20 (suc n) [] (omega arith) (omega arith) (omega arith) in
    let fits : ltb len (length s + 1) ≡ false = ground arith in
    (
      s,
      rw (buffer, runs, fits) refl,
      string2ll_pos s (suc n) (starts (omega arith)) parses ∙ unfold in_range in ground arith,
    )
string2ll-ll2string len (negsuc n) ok room =
    let buffer : (len == 0) ≡ false = ground arith in
    let (s, runs, parses, starts, short) =
      digits_parse 20 (n + 1) [] (omega arith) (omega arith) (omega arith) in
    let fits : ltb len (suc (length s) + 1) ≡ false = ground arith in
    (
      b'-' ∷ s,
      rw (buffer, runs, fits) refl,
      string2ll_neg s (n + 1) (starts (omega arith)) parses ∙ unfold in_range in ground arith,
    )
