-- ===== src/Aof/Numbers.antt =====
-- The numbers that catAppendOnlyGenericCommand of redis-2.6.12/src/aof.c writes, as
-- loadAppendOnlyFile reads them.
use commit_redis.Prelude.{
  ℕ, zero, suc, ◌+◌, ◌-◌, ◌*◌, ◌^◌, ◌≤◌, ◌<◌, ◌≡◌, ◌≢◌, refl, true, false, Bool-cases, Option-cases,
  inl, inr, some, List, [], ◌∷◌, ◌++◌, ltb, leb, ◌==◌, ◌&&◌, length, arith, is_nil, min,
}
use commit_redis.Prelude.Int.{pos}
use commit_redis.Util.Number.{string2ll, parse_digits, parse_number, is_digit, in_range, ll2string}
use commit_redis.Util.Parse.{string2ll-ll2string}
use commit_redis.Util.Print.{parse_digits_le}
use commit_redis.Aof.Lines.{length-ll2string}
use commit_redis.Aof.Defs.{number_line}
use commit_redis.Aof.Load.{line_of, is_space, skip_spaces, digits_value, signed_value, strtol}

abbrev AllDigits : List ℕ → Type 0
AllDigits [] = Unit
AllDigits (c ∷ s) = (is_digit c ≡ true) × AllDigits s

-- The digits `s` in front of the end of a line make `n` behind the digits of `v`.
abbrev Makes : ℕ → ℕ → List ℕ → Type 0
Makes v n s = AllDigits s × ((ys : List ℕ) → digits_value v (s ++ (b'\r' ∷ ys)) ≡ n)

parse_digits-Makes : (s : List ℕ) (v n : ℕ) → parse_digits s v ≡ some n → Makes v n s
unfolding parse_digits digits_value
parse_digits-Makes [] v n e = (record {}, λ ys. cc)
parse_digits-Makes (c ∷ s) v n e =
    let digit : is_digit c ≡ true = ground arith in
    let rest : parse_digits s (v * 10 + (c - b'0')) ≡ some n = ground arith in
    let (digits, makes) = parse_digits-Makes s _ n rest in
    ((digit, digits), λ ys. rw digit (makes ys))

parse_number-Makes :
    (c : ℕ) (s : List ℕ) (n : ℕ) → parse_number (c ∷ s) ≡ some n → Makes 0 n (c ∷ s) × (0 < n)
unfolding parse_number digits_value
parse_number-Makes c s n e = elim (Bool-cases (leb b'1' c && leb c b'9')) [
  | inr other ↦ cc (rw other at e)
  | inl lead ↦
      let digit : is_digit c ≡ true = ground arith in
      let e' : parse_digits s (c - b'0') ≡ some n = rw lead at e in
      let (digits, makes) = parse_digits-Makes s _ n e' in
      let first : 0 * 10 + (c - b'0') ≡ c - b'0' = omega arith in
      (
        ((digit, digits), λ ys. rw (digit, first) (makes ys)),
        (ground (arith, parse_digits_le s (c - b'0') n e')),
      )
]

parse_number_positive : (s : List ℕ) (n : ℕ) → parse_number s ≡ some n → 0 < n
unfolding parse_number
parse_number_positive [] n e = cc
parse_number_positive (c ∷ s) n e = (parse_number-Makes c s n e).1

in_range_pos : (m n : ℕ) → in_range false m ≡ some (pos n) → (m ≡ n) × (n < 2 ^ 63)
unfolding in_range
in_range_pos m n e = elim (Bool-cases (ltb (2 ^ 63 - 1) m)) [
  | inl big ↦ cc (rw big at e)
  | inr small ↦
      let e' : some (pos m) ≡ some (pos n) = rw small at e in
      let same : m ≡ n = cc in (same, ground arith)
]

in_range_neg : (m n : ℕ) → 0 < m → in_range true m ≢ some (pos n)
unfolding in_range
in_range_neg m n lead e = elim (Bool-cases (ltb (2 ^ 63) m)) [
  | inl big ↦ cc (rw big at e)
  | inr small ↦ let some_digit : (m == 0) ≡ false = ground arith in cc (rw (small, some_digit) at e)
]

zero-Makes :
    (c : ℕ) (s : List ℕ) (n : ℕ)
    → is_nil s && c == b'0' ≡ true
    → some (pos 0) ≡ some (pos n)
    → Makes 0 n (c ∷ s) × (n < 2 ^ 63)
unfolding digits_value
zero-Makes c [] n h e =
    let zero_byte : c ≡ b'0' = ground arith in
    let same : 0 ≡ n = cc in rw (zero_byte, ← same) (((refl, record {}), λ ys. refl), omega arith)
zero-Makes c (x ∷ s) n h e = cc

string2ll-Makes :
    (c : ℕ) (s : List ℕ) (n : ℕ)
    → string2ll (c ∷ s) ≡ some (pos n)
    → Makes 0 n (c ∷ s) × (n < 2 ^ 63)
unfolding string2ll digits_value
string2ll-Makes c s n e = elim (Bool-cases (is_nil s && c == b'0')) [
  | inl only ↦ zero-Makes c s n only (rw only at e)
  | inr other ↦ elim (Bool-cases (c == b'-')) [
    | inl minus ↦ elim (Option-cases (parse_number s)) [
      | inl gone ↦ cc (rw (other, minus, gone) at e)
      | inr (m, there) ↦
          absurd
            (in_range_neg m n (parse_number_positive s m there) (rw (other, minus, there) at e))
    ]
    | inr plus ↦ elim (Option-cases (parse_number (c ∷ s))) [
      | inl gone ↦ cc (rw (other, plus, gone) at e)
      | inr (m, there) ↦
          let (same, small) = in_range_pos m n (rw (other, plus, there) at e) in
          ((rw same at (parse_number-Makes c s m there).0), small)
    ]
  ]
]

-- What strtol reads on a line with that number.
strtol_lem :
    (c : ℕ) (s ys : List ℕ) (n : ℕ)
    → string2ll (c ∷ s) ≡ some (pos n)
    → strtol ((c ∷ s) ++ (b'\r' ∷ ys)) ≡ pos n
unfolding skip_spaces signed_value
strtol_lem c s ys n e =
    let (((digit, digits), makes), small) = string2ll-Makes c s n e in
    let no_space : is_space c ≡ false = ground arith in
    let no_minus : (c == b'-') ≡ false = ground arith in
    let no_plus : (c == b'+') ≡ false = ground arith in
    let fits : min n (2 ^ 63 - 1) ≡ n = omega arith in
    rw (no_space, skip_spaces) (rw (no_minus, no_plus) (rw (makes ys, fits) refl))

line_of_lem :
    (s ys : List ℕ) (room : ℕ)
    → AllDigits s
    → length s + 2 ≤ room
    → line_of room (s ++ (b'\r' ∷ b'\n' ∷ ys)) ≡ (s ++ (b'\r' ∷ b'\n' ∷ []), ys)
unfolding line_of
line_of_lem s ys zero digits h = absurd (omega arith)
line_of_lem [] ys (suc zero) digits h = absurd (omega arith)
line_of_lem [] ys (suc (suc room)) digits h = refl
line_of_lem (c ∷ s) ys (suc room) (digit, digits) h =
    let no_newline : (c == b'\n') ≡ false = ground arith in
    rw (no_newline, line_of_lem s ys room digits (omega arith)) refl

line_of-number :
    (first room : ℕ) (s ys : List ℕ)
    → (first == b'\n') ≡ false
    → AllDigits s
    → length s + 2 ≤ room
    → line_of (suc room) (first ∷ (s ++ (b'\r' ∷ b'\n' ∷ ys)))
      ≡ (first ∷ (s ++ (b'\r' ∷ b'\n' ∷ [])), ys)
unfolding line_of
line_of-number first room s ys no_newline digits h =
    rw (no_newline, line_of_lem s ys room digits h) refl

-- A line with a number, as fgets and strtol read it.
pub number_line-line_of :
    (first n : ℕ)
    → (first == b'\n') ≡ false
    → n < 2 ^ 63
    → (s : List ℕ) × (number_line first n ≡ some (first ∷ (s ++ (b'\r' ∷ b'\n' ∷ []))))
      × ((ys : List ℕ)
          → line_of 127 (first ∷ (s ++ (b'\r' ∷ b'\n' ∷ ys)))
            ≡ (first ∷ (s ++ (b'\r' ∷ b'\n' ∷ [])), ys))
      × (strtol (s ++ (b'\r' ∷ b'\n' ∷ [])) ≡ pos n)
      × (length s ≤ 30)
unfolding number_line string2ll
number_line-line_of first n no_newline h =
    let (s, prints, reads) = string2ll-ll2string 31 (pos n) h (omega arith) in
    with_digits s prints reads
  where
    with_digits :
        (s : List ℕ)
        → ll2string 31 (pos n) ≡ some s
        → string2ll s ≡ some (pos n)
        → (s : List ℕ) × (number_line first n ≡ some (first ∷ (s ++ (b'\r' ∷ b'\n' ∷ []))))
          × ((ys : List ℕ)
              → line_of 127 (first ∷ (s ++ (b'\r' ∷ b'\n' ∷ ys)))
                ≡ (first ∷ (s ++ (b'\r' ∷ b'\n' ∷ [])), ys))
          × (strtol (s ++ (b'\r' ∷ b'\n' ∷ [])) ≡ pos n)
          × (length s ≤ 30)
    with_digits [] prints reads = cc
    with_digits (c ∷ s) prints reads =
        let ((digits, makes), small) = string2ll-Makes c s n reads in
        (
          c ∷ s,
          rw prints refl,
          λ ys.
              line_of-number first 126 (c ∷ s) ys no_newline digits
                (omega (arith, length-ll2string n (c ∷ s) prints)),
          strtol_lem c s (b'\n' ∷ []) n reads,
          length-ll2string n (c ∷ s) prints,
        )
