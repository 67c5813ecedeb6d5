-- ===== src/Util/Number.antt =====
-- ll2string and string2ll of redis-2.6.12/src/util.c. A string is the list of its bytes.
use commit_redis.Prelude.{
  ℕ, zero, suc, ◌+◌, ◌-◌, ◌*◌, ◌/◌, ◌%◌, ◌^◌, Bool, true, false, Option, none, some, List, [], ◌∷◌,
  ltb, leb, ◌==◌, ◌&&◌, not, if◌then◌else◌, ◌>>=◌, length, take, is_nil,
}
use commit_redis.Prelude.Int.{ℤ, pos, negsuc}

-- `v = (value < 0) ? -value : value`
abbrev pub magnitude : ℤ → ℕ
magnitude (pos n) = n
magnitude (negsuc n) = n + 1

abbrev pub is_negative : ℤ → Bool
is_negative (pos n) = false
is_negative (negsuc n) = true

-- The loop that writes digits from the end of `buf`; `acc` is what stands behind `p`. `none` is a
-- loop that goes on.
unfoldable pub digits_loop : ℕ → ℕ → List ℕ → Option (List ℕ)
digits_loop zero v acc = none
digits_loop (suc fuel) v acc =
    let acc' = (b'0' + v % 10) ∷ acc in
    let rest = digits_loop fuel (v / 10) acc' in if v / 10 == 0 then some acc' else rest

-- ll2string: the bytes before the terminating zero, as many as fit `len`. An unsigned 64-bit number
-- has at most twenty digits, and `buf` holds 32 bytes.
unfoldable pub ll2string : ℕ → ℤ → Option (List ℕ)
ll2string len value = if len == 0 then some [] else do
  digits ← digits_loop 20 (magnitude value) []
  let s = if is_negative value then b'-' ∷ digits else digits
  some (if ltb len (length s + 1) then take (len - 1) s else s)

abbrev pub ullong_max : ℕ
ullong_max = 2 ^ 64 - 1

abbrev pub is_digit : ℕ → Bool
is_digit c = leb b'0' c && leb c b'9'

-- The loop over the digits after the first, with the check that all bytes were used.
unfoldable pub parse_digits : List ℕ → ℕ → Option ℕ
parse_digits [] v = some v
parse_digits (c ∷ rest) v =
    let more = parse_digits rest (v * 10 + (c - b'0')) in
    if not (is_digit c)
    then none
    else if ltb (ullong_max / 10) v
    then none
    else if ltb (ullong_max - (c - b'0')) (v * 10)
    then none
    else more

-- The first digit must be 1 to 9.
unfoldable pub parse_number : List ℕ → Option ℕ
parse_number [] = none
parse_number (c ∷ rest) = if leb b'1' c && leb c b'9' then parse_digits rest (c - b'0') else none

-- The check of the range at the end.
unfoldable pub in_range : Bool → ℕ → Option ℤ
in_range true v = if ltb (2 ^ 63) v then none else some (if v == 0 then pos 0 else negsuc (v - 1))
in_range false v = if ltb (2 ^ 63 - 1) v then none else some (pos v)

-- string2ll: `none` is the answer 0.
unfoldable pub string2ll : List ℕ → Option ℤ
string2ll [] = none
string2ll (c ∷ rest) =
    if is_nil rest && c == b'0'
    then some (pos 0)
    else if c == b'-'
    then (do v ← parse_number rest; in_range true v)
    else (do v ← parse_number (c ∷ rest); in_range false v)
