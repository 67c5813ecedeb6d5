-- ===== src/Util/Amounts.antt =====
-- memtoll of redis-2.6.12/src/util.c: the value of an amount with a unit.
use commit_redis.Prelude.{
  ℕ, ◌+◌, ◌-◌, ◌*◌, ◌<◌, ◌≡◌, refl, ◌∙◌, ap, Bool, true, false, some, List, [], ◌∷◌, ◌++◌, leb,
  ◌&&◌, if◌then◌else◌, length, is_nil, arith,
}
use commit_redis.Prelude.Int.{ℤ, pos, negsuc}
use commit_redis.Objects.{same_text}
use commit_redis.Memory.Signed.{InWidth, of_bits-to_bits}
use commit_redis.Util.Number.{is_digit, string2ll}
use commit_redis.Util.Units.{
  unit_of, times, amount_of, memtoll, all_digits, starts_no_digit, split_amount_lem, amount_of_lem,
}

-- The units of an amount in bytes, in small letters: powers of 1000, and of 1024 with a `b` behind.
pub data IsUnit : List ℕ → ℕ → Type 0 where
  bare : IsUnit [] 1
  bytes : IsUnit (b'b' ∷ []) 1
  thousand : IsUnit (b'k' ∷ []) 1000
  kilo : IsUnit (b'k' ∷ b'b' ∷ []) 1024
  million : IsUnit (b'm' ∷ []) 1000000
  mega : IsUnit (b'm' ∷ b'b' ∷ []) 1048576
  billion : IsUnit (b'g' ∷ []) 1000000000
  giga : IsUnit (b'g' ∷ b'b' ∷ []) 1073741824

abbrev pub small_letter : ℕ → ℕ
small_letter c = if leb b'A' c && leb c b'Z' then c + 32 else c

abbrev pub small_letters : List ℕ → List ℕ
small_letters [] = []
small_letters (c ∷ t) = small_letter c ∷ small_letters t

-- strcasecmp of two words is 0 where they are the same in small letters.
abbrev pub IsCaseless : (List ℕ → List ℕ → Bool) → Type 0
IsCaseless is_word = (u w : List ℕ) → is_word u w ≡ same_text (small_letters u) (small_letters w)

-- strtoll of a number that fits a long long is its value.
abbrev pub IsDecimal : (List ℕ → ℤ) → Type 0
IsDecimal strtoll = (t : List ℕ) (v : ℤ) → string2ll t ≡ some v → strtoll t ≡ v

-- A value times a positive unit.
abbrev pub scaled : ℤ → ℕ → ℤ
scaled (pos n) mul = pos (n * mul)
scaled (negsuc n) mul = negsuc ((n + 1) * mul - 1)

times_lem : (v : ℤ) (mul : ℕ) → InWidth 8 (scaled v mul) → times v mul ≡ scaled v mul
times_lem (pos n) mul h = of_bits-to_bits 8 (pos (n * mul)) (omega arith) h
times_lem (negsuc n) mul h = of_bits-to_bits 8 (negsuc ((n + 1) * mul - 1)) (omega arith) h

is_nil-small_letters : (u : List ℕ) → is_nil u ≡ is_nil (small_letters u)
is_nil-small_letters [] = refl
is_nil-small_letters (c ∷ u) = refl

small_digit : (c : ℕ) → is_digit c ≡ is_digit (small_letter c)
small_digit c = ground arith

no_digit : (u : List ℕ) → starts_no_digit u ≡ starts_no_digit (small_letters u)
no_digit [] = refl
no_digit (c ∷ u) = ap (λ b. if b then false else true) (small_digit c)

unit_of_lem :
    (is_word : List ℕ → List ℕ → Bool) (u : List ℕ)
    → IsCaseless is_word
    → unit_of is_word u ≡ unit_of same_text (small_letters u)
unfolding unit_of
unit_of_lem is_word u caseless =
    rw
      (
        is_nil-small_letters u,
        caseless u (b'b' ∷ []),
        caseless u (b'k' ∷ []),
        caseless u (b'k' ∷ b'b' ∷ []),
        caseless u (b'm' ∷ []),
        caseless u (b'm' ∷ b'b' ∷ []),
        caseless u (b'g' ∷ []),
        caseless u (b'g' ∷ b'b' ∷ []),
      )
      refl

IsUnit-known :
    (w : List ℕ) (mul : ℕ)
    → IsUnit w mul
    → (unit_of same_text w ≡ some mul) × (starts_no_digit w ≡ true)
unfolding unit_of
IsUnit-known w mul bare = (refl, refl)
IsUnit-known w mul bytes = (refl, refl)
IsUnit-known w mul thousand = (refl, refl)
IsUnit-known w mul kilo = (refl, refl)
IsUnit-known w mul million = (refl, refl)
IsUnit-known w mul mega = (refl, refl)
IsUnit-known w mul billion = (refl, refl)
IsUnit-known w mul giga = (refl, refl)

-- An amount is a number, digits with an optional sign, and then a unit in small or capital letters:
-- where the number is one that string2ll reads and is of fewer than 128 bytes, and the number times
-- the unit fits a long long, memtoll answers that product and no error. It is asked that strcasecmp
-- does not heed the case, and that strtoll answers the value of a number that fits.
pub memtoll_lem :
    (is_word : List ℕ → List ℕ → Bool) (strtoll : List ℕ → ℤ) (negative : Bool) (d : ℕ)
    (s u : List ℕ) (v : ℤ) (mul : ℕ)
    → IsCaseless is_word
    → IsDecimal strtoll
    → all_digits (d ∷ s) ≡ true
    → length (if negative then b'-' ∷ d ∷ s else d ∷ s) < 128
    → string2ll (if negative then b'-' ∷ d ∷ s else d ∷ s) ≡ some v
    → IsUnit (small_letters u) mul
    → InWidth 8 (scaled v mul)
    → memtoll is_word strtoll ((if negative then b'-' ∷ d ∷ s else d ∷ s) ++ u)
      ≡ (scaled v mul, false)
unfolding memtoll
memtoll_lem is_word strtoll negative d s u v mul caseless decimal digits short reads unit fits =
    let number = if negative then b'-' ∷ d ∷ s else d ∷ s in
    let (known, ends) = IsUnit-known (small_letters u) mul unit in
    ap (amount_of is_word strtoll) (split_amount_lem negative d s u digits (no_digit u ∙ ends))
    ∙ amount_of_lem is_word strtoll number u mul (unit_of_lem is_word u caseless ∙ known) short
    ∙ ap (λ x. (x, false)) (ap (λ x. times x mul) (decimal number v reads) ∙ times_lem v mul fits)
