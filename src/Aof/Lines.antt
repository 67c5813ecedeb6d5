-- ===== src/Aof/Lines.antt =====
-- The lines with a number that catAppendOnlyGenericCommand of redis-2.6.12/src/aof.c writes, as
-- processMultibulkBuffer of redis-2.6.12/src/networking.c reads them.
use commit_redis.Prelude.{
  length-take, if◌then◌else◌, ℕ, suc, ◌+◌, ◌-◌, ◌*◌, ◌^◌, ◌≤◌, ◌<◌, ◌≡◌, refl, ap, true, false,
  Bool-cases, Option-cases, inl, inr, some, List, [], ◌∷◌, ◌++◌, ltb, leb, ◌==◌, ◌&&◌, length,
  length-append, arith, is_nil, take, drop,
}
use commit_redis.Prelude.Int.{ℤ, pos}
use commit_redis.Util.Number.{
  ll2string, digits_loop, string2ll, parse_digits, parse_number, is_digit,
}
use commit_redis.Util.Parse.{string2ll-ll2string}
use commit_redis.Aof.Defs.{number_line}
use commit_redis.Protocol.Defs.{
  known, find_cr, bulk_line, read_bulk_len, mbulk_line, read_mbulk_len,
}
use commit_redis.Protocol.Lines.{longer}

-- A line that ends behind `s`.
abbrev pub Ends : List ℕ → Type 0
Ends s = (ys : List ℕ) → find_cr (s ++ (b'\r' ∷ ys)) ≡ some (length s)

find_cr-digit : (c : ℕ) (s : List ℕ) → b'-' ≤ c → c ≤ b'9' → Ends s → Ends (c ∷ s)
find_cr-digit c s lo hi h ys =
    let not_zero : (c == 0) ≡ false = ground arith in
    let not_cr : (c == b'\r') ≡ false = ground arith in rw (not_zero, not_cr, h ys) refl

parse_digits-Ends : (s : List ℕ) (v v' : ℕ) → parse_digits s v ≡ some v' → Ends s
unfolding parse_digits
parse_digits-Ends [] v v' e = λ ys. refl
parse_digits-Ends (c ∷ s) v v' e =
    let digit : is_digit c ≡ true = ground arith in
    let rest : parse_digits s (v * 10 + (c - b'0')) ≡ some v' = ground arith in
    find_cr-digit c s (ground arith) (ground arith) (parse_digits-Ends s _ v' rest)

parse_number-Ends : (s : List ℕ) (v : ℕ) → parse_number s ≡ some v → Ends s
unfolding parse_number
parse_number-Ends [] v e = cc
parse_number-Ends (c ∷ s) v e = elim (Bool-cases (leb b'1' c && leb c b'9')) [
  | inr other ↦ cc (rw other at e)
  | inl digit ↦
      find_cr-digit c s (ground arith) (ground arith) (parse_digits-Ends s _ v (rw digit at e))
]

string2ll-Ends : (s : List ℕ) (v : ℤ) → string2ll s ≡ some v → Ends s
unfolding string2ll
string2ll-Ends [] v e = cc
string2ll-Ends (c ∷ s) v e = elim (Bool-cases (is_nil s && c == b'0')) [
  | inl zero_only ↦ find_cr-digit c s (ground arith) (ground arith) (empty_ends s (ground arith))
  | inr longer_one ↦ elim (Bool-cases (c == b'-')) [
    | inl minus ↦
        find_cr-digit c s (ground arith) (ground arith) (elim (Option-cases (parse_number s)) [
          | inl gone ↦ cc (rw (longer_one, minus, gone) at e)
          | inr (m, there) ↦ parse_number-Ends s m there
        ])
    | inr digit ↦ elim (Option-cases (parse_number (c ∷ s))) [
      | inl gone ↦ cc (rw (longer_one, digit, gone) at e)
      | inr (m, there) ↦ parse_number-Ends (c ∷ s) m there
    ]
  ]
]
  where
    empty_ends : (s : List ℕ) → is_nil s ≡ true → Ends s
    empty_ends [] h = λ ys. refl
    empty_ends (x ∷ s) h = cc

length-cut :
    (t s : List ℕ) → some (if ltb 31 (length t + 1) then take 30 t else t) ≡ some s → length s ≤ 30
length-cut t s e = elim (Bool-cases (ltb 31 (length t + 1))) [
  | inl long ↦
      let e' : some (take 30 t) ≡ some s = rw long at e in
      let same : take 30 t ≡ s = cc in omega (arith, ap length same, length-take 30 t)
  | inr short ↦
      let e' : some t ≡ some s = rw short at e in
      let same : t ≡ s = cc in
      let room : length t + 1 ≤ 31 = ground arith in omega (arith, ap length same)
]

pub length-ll2string : (n : ℕ) (s : List ℕ) → ll2string 31 (pos n) ≡ some s → length s ≤ 30
unfolding ll2string
length-ll2string n s e = elim (Option-cases (digits_loop 20 n [])) [
  | inl gone ↦ cc (rw gone at e)
  | inr (t, there) ↦ length-cut t s (rw there at e)
]

-- A line with a number, as string2ll and the search for the end of a line read it.
pub number_line_lem :
    (first n : ℕ)
    → n < 2 ^ 63
    → (s : List ℕ) × (number_line first n ≡ some (first ∷ (s ++ (b'\r' ∷ b'\n' ∷ []))))
      × (string2ll s ≡ some (pos n))
      × Ends s
      × (length s ≤ 30)
unfolding number_line
number_line_lem first n h =
    let (s, prints, reads) = string2ll-ll2string 31 (pos n) h (omega arith) in
    (s, rw prints refl, reads, string2ll-Ends s (pos n) reads, length-ll2string n s prints)

pub take-length : (s ys : List ℕ) → take (length s) (s ++ ys) ≡ s
take-length [] ys = refl
take-length (x ∷ s) ys = ap (λ t. x ∷ t) (take-length s ys)

pub drop-length : (s ys : List ℕ) (k : ℕ) → drop (length s + k) (s ++ ys) ≡ drop k ys
drop-length [] ys k = let m : 0 + k ≡ k = omega arith in rw m refl
drop-length (x ∷ s) ys k =
    let m : suc (length s) + k ≡ suc (length s + k) = omega arith in rw m (drop-length s ys k)

pub read_bulk_len-line :
    (t n : ℕ) (s rest : List ℕ)
    → string2ll s ≡ some (pos n)
    → Ends s
    → n ≤ 512 * 1024 * 1024
    → read_bulk_len t (b'$' ∷ (s ++ (b'\r' ∷ b'\n' ∷ rest))) ≡ known n rest
unfolding read_bulk_len bulk_line
read_bulk_len-line t n s rest reads ends small =
    let line = s ++ (b'\r' ∷ b'\n' ∷ rest) in
    let i : suc (length s) - 1 ≡ length s = omega arith in
    let j : suc (length s) + 2 ≡ suc (length s + 2) = omega arith in
    let room : ltb (suc (length line)) (suc (length s) + 2) ≡ false =
      longer _ _ (omega (arith, length-append s (b'\r' ∷ b'\n' ∷ rest))) in
    let fits : ltb (512 * 1024 * 1024) n ≡ false = ground arith in
    rw (ends (b'\n' ∷ rest), read_bulk_len)
      (rw (room, i, take-length s (b'\r' ∷ b'\n' ∷ rest), reads)
        (rw (fits, j, drop-length s (b'\r' ∷ b'\n' ∷ rest) 2) refl))

pub read_mbulk_len-line :
    (n : ℕ) (s rest : List ℕ)
    → string2ll s ≡ some (pos n)
    → Ends s
    → n ≤ 1024 * 1024
    → read_mbulk_len (b'*' ∷ (s ++ (b'\r' ∷ b'\n' ∷ rest))) ≡ some (known n rest)
unfolding read_mbulk_len mbulk_line
read_mbulk_len-line n s rest reads ends small =
    let line = s ++ (b'\r' ∷ b'\n' ∷ rest) in
    let i : suc (length s) - 1 ≡ length s = omega arith in
    let j : suc (length s) + 2 ≡ suc (length s + 2) = omega arith in
    let room : ltb (suc (length line)) (suc (length s) + 2) ≡ false =
      longer _ _ (omega (arith, length-append s (b'\r' ∷ b'\n' ∷ rest))) in
    let fits : ltb (1024 * 1024) n ≡ false = ground arith in
    rw (ends (b'\n' ∷ rest), read_mbulk_len)
      (rw (room, i, take-length s (b'\r' ∷ b'\n' ∷ rest), reads)
        (rw (fits, j, drop-length s (b'\r' ∷ b'\n' ∷ rest) 2) refl))
