-- ===== src/Glob/Defs.antt =====
-- stringmatchlen of redis-2.6.12/src/util.c. A pointer is the list of the bytes from it to the
-- terminating zero, which is the last of them, so that a length is one less than the list's; the
-- pointer past the zero is the empty list, with the length -1. A read there, or a step further, is a
-- fault: `none`.
use commit_redis.Prelude.{
  ℕ, zero, suc, ◌+◌, ◌%◌, Bool, true, false, not, ◌&&◌, ◌||◌, Option, none, some, List, [], ◌∷◌,
  leb, ◌==◌, if◌then◌else◌, length, is_nil,
}

-- The order of `char`, which is signed.
abbrev pub char_le : ℕ → ℕ → Bool
char_le a b = leb ((a + 128) % 256) ((b + 128) % 256)

-- The two comparisons under `nocase`; `tolower` is the C library's.
abbrev pub same_char : (ℕ → ℕ) → Bool → ℕ → ℕ → Bool
same_char tolower nocase a b = if nocase then tolower a == tolower b else a == b

-- `start`, `end` and `c` of a range.
abbrev pub in_char_range : (ℕ → ℕ) → Bool → ℕ → ℕ → ℕ → Bool
in_char_range tolower nocase a b c =
    let first = if char_le a b then a else b in
    let last = if char_le a b then b else a in
    if nocase
    then char_le (tolower first) (tolower c) && char_le (tolower c) (tolower last)
    else char_le first c && char_le c last

-- `while (pattern[1] == '*')`
abbrev pub skip_stars : List ℕ → List ℕ
skip_stars [] = []
skip_stars (a ∷ []) = a ∷ []
skip_stars (a ∷ b ∷ r) = if b == b'*' then skip_stars (b ∷ r) else a ∷ b ∷ r

-- What is left after the string has ended: stars, then the end of the pattern.
abbrev pub only_stars : List ℕ → Option Bool
only_stars [] = none
only_stars (c ∷ r) = if c == b'*' then only_stars r else some (is_nil r)

-- The loop of a class, from `pattern` to the position after it; `x` is `string[0]`.
unfoldable pub class_loop : (ℕ → ℕ) → Bool → ℕ → ℕ → List ℕ → Bool → Option (Bool × List ℕ)
class_loop tolower nocase zero x p found = none
class_loop tolower nocase (suc fuel) x [] found = none
class_loop tolower nocase (suc fuel) x (c ∷ []) found =
    if c == b'\\' then none else some (found, (if c == b']' then [] else c ∷ []))
class_loop tolower nocase (suc fuel) x (c ∷ d ∷ []) found =
    let escaped = class_loop tolower nocase fuel x [] (found || (d == x)) in
    let single =
      class_loop tolower nocase fuel x (d ∷ []) (found || same_char tolower nocase c x) in
    if c == b'\\' then escaped else if c == b']' then some (found, d ∷ []) else single
class_loop tolower nocase (suc fuel) x (c ∷ d ∷ e ∷ r) found =
    let escaped = class_loop tolower nocase fuel x (e ∷ r) (found || (d == x)) in
    let range = class_loop tolower nocase fuel x r (found || in_char_range tolower nocase c e x) in
    let single =
      class_loop tolower nocase fuel x (d ∷ e ∷ r) (found || same_char tolower nocase c x) in
    if c == b'\\'
    then escaped
    else if c == b']'
    then some (found, d ∷ e ∷ r)
    else if (d == b'-') && not (is_nil r)
    then range
    else single

-- The case of a class, from the position after the bracket.
unfoldable pub match_class : (ℕ → ℕ) → Bool → ℕ → List ℕ → Option (Bool × List ℕ)
match_class tolower nocase x [] = none
match_class tolower nocase x (c ∷ r) =
    if c == b'^'
    then elim (class_loop tolower nocase (length r + 1) x r false) [
      | none ↦ none
      | some (found, after) ↦ some (not found, after)
    ]
    else class_loop tolower nocase (length r + 2) x (c ∷ r) false

-- The loop over the string behind a star, with the recursive call as `rest`.
abbrev pub star_loop : (List ℕ → Option Bool) → List ℕ → Option Bool
star_loop rest [] = none
star_loop rest (x ∷ []) = some false
star_loop rest (x ∷ y ∷ r) = elim (rest (x ∷ y ∷ r)) [
  | none ↦ none
  | some true ↦ some true
  | some false ↦ star_loop rest (y ∷ r)
]

-- The end of a round: a string that has ended leaves the loop.
abbrev pub round_end : (List ℕ → List ℕ → Option Bool) → List ℕ → List ℕ → Option Bool
round_end rest p s = if length s == 1 then only_stars p else rest p s

-- The default case: `pattern[0]` against `string[0]`.
abbrev pub match_char :
    (ℕ → ℕ) → Bool → (List ℕ → List ℕ → Option Bool) → List ℕ → List ℕ → Option Bool
match_char tolower nocase rest [] s = none
match_char tolower nocase rest (c ∷ p) [] = none
match_char tolower nocase rest (c ∷ p) (x ∷ s) =
    if same_char tolower nocase c x then round_end rest p s else some false

-- `string++`, then the end of the round.
abbrev pub any_char : (List ℕ → List ℕ → Option Bool) → List ℕ → List ℕ → Option Bool
any_char rest p [] = none
any_char rest p (x ∷ s) = round_end rest p s

-- The case of a class on the string.
unfoldable pub class_case :
    (ℕ → ℕ) → Bool → (List ℕ → List ℕ → Option Bool) → List ℕ → List ℕ → Option Bool
class_case tolower nocase rest p [] = none
class_case tolower nocase rest p (x ∷ s) = elim (match_class tolower nocase x p) [
  | none ↦ none
  | some (found, after) ↦ if found then round_end rest after s else some false
]

-- The case of a star.
abbrev pub star_case : (List ℕ → List ℕ → Option Bool) → List ℕ → List ℕ → Option Bool
star_case rest [] s = none
star_case rest (c ∷ p) s = if length p == 1 then some true else star_loop (rest p) s

-- The outer loop; each round moves the pattern on.
unfoldable pub match_loop : (ℕ → ℕ) → Bool → ℕ → List ℕ → List ℕ → Option Bool
match_loop tolower nocase zero p s = none
match_loop tolower nocase (suc fuel) [] s = none
match_loop tolower nocase (suc fuel) (c ∷ []) s = some (length s == 1)
match_loop tolower nocase (suc fuel) (c ∷ d ∷ r) s =
    let rest = match_loop tolower nocase fuel in
    if c == b'*'
    then star_case rest (skip_stars (c ∷ d ∷ r)) s
    else if c == b'?'
    then (if length s == 1 then some false else any_char rest (d ∷ r) s)
    else if c == b'['
    then class_case tolower nocase rest (d ∷ r) s
    else if (c == b'\\') && not (is_nil r)
    then match_char tolower nocase rest (d ∷ r) s
    else match_char tolower nocase rest (c ∷ d ∷ r) s

-- stringmatchlen on a pattern and a string, each with its terminating zero.
unfoldable pub stringmatchlen : (ℕ → ℕ) → List ℕ → List ℕ → Bool → Option Bool
stringmatchlen tolower pattern string nocase =
    match_loop tolower nocase (length pattern) pattern string
