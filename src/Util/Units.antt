-- ===== src/Util/Units.antt =====
-- memtoll and string2l of redis-2.6.12/src/util.c.
use commit_redis.Prelude.{
  ℕ, ◌+◌, ◌-◌, ◌*◌, ◌^◌, ◌<◌, ◌≡◌, refl, Bool, true, false, Option, none, some, List, [], ◌∷◌, ◌++◌,
  leb, ◌==◌, if◌then◌else◌, length, is_nil, arith, Bool-cases, inl, inr,
}
use commit_redis.Prelude.Int.{ℤ, pos, negsuc}
use commit_redis.Memory.Signed.{to_bits, of_bits}
use commit_redis.Util.Number.{is_digit, string2ll}

-- string2l, where a long has the 64 bits of a long long: the second range check never fails.
abbrev pub string2l : List ℕ → Option ℤ
string2l s = string2ll s

-- The walk over the digits: what it passes, and what it stops at.
unfoldable pub span_digits : List ℕ → List ℕ × List ℕ
span_digits [] = ([], [])
span_digits (c ∷ r) =
    let (ds, rest) = span_digits r in if is_digit c then (c ∷ ds, rest) else ([], c ∷ r)

-- The units, by strcasecmp; `none` is the error.
unfoldable pub unit_of : (List ℕ → List ℕ → Bool) → List ℕ → Option ℕ
unit_of is_word u =
    if is_nil u
    then some 1
    else if is_word u (b'b' ∷ [])
    then some 1
    else if is_word u (b'k' ∷ [])
    then some 1000
    else if is_word u (b'k' ∷ b'b' ∷ [])
    then some 1024
    else if is_word u (b'm' ∷ [])
    then some (1000 * 1000)
    else if is_word u (b'm' ∷ b'b' ∷ [])
    then some (1024 * 1024)
    else if is_word u (b'g' ∷ [])
    then some (1000 * 1000 * 1000)
    else if is_word u (b'g' ∷ b'b' ∷ [])
    then some (1024 * 1024 * 1024)
    else none

-- `val * mul`, which wraps at 64 bits.
abbrev pub times : ℤ → ℕ → ℤ
times (pos n) mul = of_bits 8 (to_bits 8 (pos (n * mul)))
times (negsuc n) mul = of_bits 8 (to_bits 8 (negsuc ((n + 1) * mul - 1)))

-- The sign and the digits at the front, and the unit behind them.
unfoldable pub split_amount : List ℕ → List ℕ × List ℕ
split_amount [] = ([], [])
split_amount (c ∷ r) =
    let (ds, u) = span_digits r in
    let unsigned = span_digits (c ∷ r) in if c == b'-' then (c ∷ ds, u) else unsigned

-- The rest of memtoll, from the digits and the unit: the result and `*err`. `strtoll` is the C
-- library's, in base ten.
unfoldable pub amount_of : (List ℕ → List ℕ → Bool) → (List ℕ → ℤ) → List ℕ × List ℕ → ℤ × Bool
amount_of is_word strtoll (digits, u) =
    if leb 128 (length digits) then (pos (2 ^ 63 - 1), true) else elim (unit_of is_word u) [
      | none ↦ (times (strtoll digits) 1, true)
      | some mul ↦ (times (strtoll digits) mul, false)
    ]

unfoldable pub memtoll : (List ℕ → List ℕ → Bool) → (List ℕ → ℤ) → List ℕ → ℤ × Bool
memtoll is_word strtoll p = amount_of is_word strtoll (split_amount p)

abbrev pub all_digits : List ℕ → Bool
all_digits [] = true
all_digits (c ∷ r) = if is_digit c then all_digits r else false

abbrev pub starts_no_digit : List ℕ → Bool
starts_no_digit [] = true
starts_no_digit (c ∷ r) = if is_digit c then false else true

span_digits-append :
    (s u : List ℕ) → all_digits s ≡ true → starts_no_digit u ≡ true → span_digits (s ++ u) ≡ (s, u)
unfolding span_digits
span_digits-append [] [] h k = refl
span_digits-append [] (c ∷ u) h k = elim (Bool-cases (is_digit c)) [
  | inl e ↦ absurd (ground (arith, rw e at k))
  | inr e ↦ rw e refl
]
span_digits-append (c ∷ s) u h k = elim (Bool-cases (is_digit c)) [
  | inl e ↦ rw (e, span_digits-append s u (rw e at h) k) refl
  | inr e ↦ absurd (ground (arith, rw e at h))
]

digit_no_sign : (c : ℕ) → is_digit c ≡ true → (c == b'-') ≡ false
digit_no_sign c h = ground arith

pub split_amount_lem :
    (negative : Bool) (d : ℕ) (s u : List ℕ)
    → all_digits (d ∷ s) ≡ true
    → starts_no_digit u ≡ true
    → split_amount ((if negative then b'-' ∷ d ∷ s else d ∷ s) ++ u)
      ≡ ((if negative then b'-' ∷ d ∷ s else d ∷ s), u)
unfolding split_amount
split_amount_lem true d s u h k = rw (span_digits-append (d ∷ s) u h k) refl
split_amount_lem false d s u h k = elim (Bool-cases (is_digit d)) [
  | inl e ↦ rw (digit_no_sign d e, span_digits-append (d ∷ s) u h k) refl
  | inr e ↦ absurd (ground (arith, rw e at h))
]

pub amount_of_lem :
    (is_word : List ℕ → List ℕ → Bool) (strtoll : List ℕ → ℤ) (number u : List ℕ) (mul : ℕ)
    → unit_of is_word u ≡ some mul
    → length number < 128
    → amount_of is_word strtoll (number, u) ≡ (times (strtoll number) mul, false)
unfolding amount_of
amount_of_lem is_word strtoll number u mul known short =
    let fits : leb 128 (length number) ≡ false = ground arith in rw (fits, known) refl
