-- ===== src/Util/Print.antt =====
-- string2ll accepts no string but the one that ll2string prints.
use native.Mathlib.Nat.{pow-suc}
use mathlib.Core.List.{append-nil}
use commit_redis.Prelude.{
  ℕ, zero, suc, ◌+◌, ◌-◌, ◌*◌, ◌/◌, ◌%◌, ◌^◌, ◌<◌, ◌≤◌, ◌≡◌, ◌≢◌, refl, ◌∙◌, inl, inr, Bool, true,
  false, some, List, [], ◌∷◌, ◌++◌, ltb, ◌==◌, ◌&&◌, if◌then◌else◌, Bool-cases, Option-cases, arith,
  length, is_nil,
}
use commit_redis.Prelude.Int.{ℤ, pos, negsuc}
use commit_redis.Util.Number.{
  magnitude, is_negative, digits_loop, ll2string, is_digit, parse_digits, parse_number, in_range,
  string2ll,
}
use commit_redis.Util.Parse.{IsLongLong}

-- Any fuel that covers the digits gives the same string.
digits_fuel :
    (f g v : ℕ) (acc : List ℕ)
    → v < 10 ^ f
    → v < 10 ^ g
    → 0 < f
    → 0 < g
    → digits_loop f v acc ≡ digits_loop g v acc
unfolding digits_loop
digits_fuel zero g v acc h k p q = absurd (omega arith)
digits_fuel (suc f) zero v acc h k p q = absurd (omega arith)
digits_fuel (suc f) (suc g) v acc h k p q = elim (Bool-cases (v / 10 == 0)) [
  | inl last ↦ rw last refl
  | inr more ↦
      let less_f : v / 10 < 10 ^ f = omega (arith, pow-suc 10 f) in
      let less_g : v / 10 < 10 ^ g = omega (arith, pow-suc 10 g) in
      rw more (
        digits_fuel f g (v / 10) ((b'0' + v % 10) ∷ acc) less_f less_g
          (some_fuel f (v / 10) (ground arith) less_f) (some_fuel g (v / 10) (ground arith) less_g))
]
  where
    some_fuel : (f v : ℕ) → v ≢ 0 → v < 10 ^ f → 0 < f
    some_fuel zero v nz h = absurd (omega arith)
    some_fuel (suc f) v nz h = omega arith

pub parse_digits_le : (r : List ℕ) (v₀ v : ℕ) → parse_digits r v₀ ≡ some v → v₀ ≤ v
unfolding parse_digits
parse_digits_le [] v₀ v e = ground arith
parse_digits_le (c ∷ r) v₀ v e = ground (arith, parse_digits_le r (v₀ * 10 + (c - b'0')) v)

-- Printing what was parsed prints the digits parsed, behind those of the number before them.
print_parsed :
    (r : List ℕ) (f g v₀ v : ℕ) (acc : List ℕ)
    → parse_digits r v₀ ≡ some v
    → 0 < v₀
    → v₀ < 10 ^ f
    → 0 < f
    → v < 10 ^ g
    → 0 < g
    → digits_loop g v acc ≡ digits_loop f v₀ (r ++ acc)
unfolding parse_digits
print_parsed [] f g v₀ v acc e some_v h p k q =
    let same : v₀ ≡ v = ground arith in rw same (digits_fuel g f v acc k (rw same at h) q p)
print_parsed (c ∷ r) f g v₀ v acc e some_v h p k q =
    let digit : is_digit c ≡ true = ground arith in
    let tail : parse_digits r (v₀ * 10 + (c - b'0')) ≡ some v = ground arith in
    let rest =
      print_parsed r (suc f) g (v₀ * 10 + (c - b'0')) v acc tail (omega arith) (step_bound c digit)
        (omega arith) k q in
    rest ∙ one_digit c digit
  where
    step_bound : (c : ℕ) → is_digit c ≡ true → v₀ * 10 + (c - b'0') < 10 ^ suc f
    step_bound c digit = let hi : c ≤ b'9' = ground arith in omega (arith, pow-suc 10 f)

    one_digit :
        (c : ℕ)
        → is_digit c ≡ true
        → digits_loop (suc f) (v₀ * 10 + (c - b'0')) (r ++ acc) ≡ digits_loop f v₀ (c ∷ (r ++ acc))
    one_digit c digit =
        let lo : b'0' ≤ c = ground arith in
        let hi : c ≤ b'9' = ground arith in
        let front : (v₀ * 10 + (c - b'0')) / 10 ≡ v₀ = omega arith in
        let back : b'0' + (v₀ * 10 + (c - b'0')) % 10 ≡ c = omega arith in
        let more : (v₀ == 0) ≡ false = ground arith in
        unfold digits_loop in rw (front, back, more) refl

-- A string that parse_number accepts is what the digit loop prints.
print_number :
    (s : List ℕ) (v : ℕ)
    → parse_number s ≡ some v
    → v < 10 ^ 20
    → (digits_loop 20 v [] ≡ some s) × (0 < v)
unfolding parse_number
print_number [] v e h = cc
print_number (c ∷ r) v e h =
    let tail : parse_digits r (c - b'0') ≡ some v = ground arith in
    let lo : b'1' ≤ c = ground arith in
    let hi : c ≤ b'9' = ground arith in
    let last : ((c - b'0') / 10 == 0) ≡ true = ground arith in
    let back : b'0' + (c - b'0') % 10 ≡ c = omega arith in
    (
      print_parsed r 1 20 (c - b'0') v [] tail (omega arith) (omega arith) (omega arith) h
            (omega arith)
          ∙ (unfold digits_loop in rw (last, back, append-nil) refl),
      omega (arith, parse_digits_le r (c - b'0') v tail),
    )

digits_length :
    (f v : ℕ) (acc s : List ℕ) → digits_loop f v acc ≡ some s → length s ≤ length acc + f
unfolding digits_loop
digits_length zero v acc s e = cc
digits_length (suc f) v acc s e = ground (arith, digits_length f (v / 10) ((b'0' + v % 10) ∷ acc) s)

-- The value that the range check lets through has the sign and the digits that were read.
in_range_lem :
    (neg : Bool) (v : ℕ) (value : ℤ)
    → 0 < v
    → in_range neg v ≡ some value
    → IsLongLong value × (magnitude value ≡ v) × (is_negative value ≡ neg) × (v < 10 ^ 20)
unfolding in_range
in_range_lem true v (pos n) p e = ground arith
in_range_lem true v (negsuc n) p e = ground arith
in_range_lem false v (pos n) p e = ground arith
in_range_lem false v (negsuc n) p e = ground arith

in_range_small : (neg : Bool) (v : ℕ) (value : ℤ) → in_range neg v ≡ some value → v < 10 ^ 20
unfolding in_range
in_range_small true v value e = ground arith
in_range_small false v value e = ground arith

signed_case :
    (neg : Bool) (s : List ℕ) (v : ℕ) (value : ℤ)
    → parse_number s ≡ some v
    → in_range neg v ≡ some value
    → IsLongLong value × (ll2string 32 value ≡ some (if neg then b'-' ∷ s else s))
unfolding ll2string
signed_case neg s v value e range =
    let (prints, some_v) = print_number s v e (in_range_small neg v value range) in
    let (ok, size, sign, small) = in_range_lem neg v value some_v range in
    let short : length s ≤ 20 = digits_length 20 v [] s prints in
    let fits : ltb 32 (length (if neg then b'-' ∷ s else s) + 1) ≡ false = fits_lem neg short in
    (ok, rw (size, prints, sign, fits) refl)
  where
    fits_lem : (b : Bool) → length s ≤ 20 → ltb 32 (length (if b then b'-' ∷ s else s) + 1) ≡ false
    fits_lem true h = ground arith
    fits_lem false h = ground arith

nil_of_is_nil : (r : List ℕ) → is_nil r ≡ true → r ≡ []
nil_of_is_nil [] h = refl
nil_of_is_nil (c ∷ r) h = cc

-- Every string that string2ll accepts stands for an `int64_t`, and ll2string prints that string
-- again: no other spelling of a number is accepted.
pub ll2string-string2ll :
    (s : List ℕ) (value : ℤ)
    → string2ll s ≡ some value
    → IsLongLong value × (ll2string 32 value ≡ some s)
unfolding string2ll
ll2string-string2ll [] value e = cc
ll2string-string2ll (c ∷ r) value e = elim (Bool-cases (is_nil r && c == b'0')) [
  | inl zero_alone ↦
      let value' : value ≡ pos 0 = ground arith in
      let c' : c ≡ b'0' = ground arith in
      rw (value', c', nil_of_is_nil r (ground arith))
        (omega arith, unfold ll2string digits_loop in refl)
  | inr other ↦ elim (Bool-cases (c == b'-')) [
    | inl minus ↦
        let c' : c ≡ b'-' = ground arith in
        elim (Option-cases (parse_number r)) [
          | inl none_read ↦ ground arith
          | inr (v, read) ↦ rw c' (signed_case true r v value read (ground arith))
        ]
    | inr digit ↦ elim (Option-cases (parse_number (c ∷ r))) [
      | inl none_read ↦ ground arith
      | inr (v, read) ↦ signed_case false (c ∷ r) v value read (ground arith)
    ]
  ]
]
