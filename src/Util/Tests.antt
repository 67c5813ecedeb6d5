-- ===== src/Util/Tests.antt =====
-- Runs of ll2string and string2ll, and the theorems at concrete inputs.
use commit_redis.Prelude.{ℕ, ◌-◌, ◌^◌, ◌≡◌, refl, false, none, some, List, [], ◌∷◌, arith}
use commit_redis.Prelude.Int.{ℤ, pos, negsuc}
use commit_redis.Util.Number.{
  digits_loop, ll2string, parse_digits, parse_number, in_range, string2ll,
}
use commit_redis.Objects.{same_text}
use commit_redis.Util.Units.{memtoll}
use commit_redis.Util.Amounts.{small_letters, kilo, memtoll_lem}
use commit_redis.Util.Parse.{IsLongLong, string2ll-ll2string}
use commit_redis.Util.Print.{ll2string-string2ll}

string2ll-ll2string_example :
    (s : List ℕ) × (ll2string 32 (negsuc (2 ^ 63 - 1)) ≡ some s)
    × (string2ll s ≡ some (negsuc (2 ^ 63 - 1)))
string2ll-ll2string_example =
    string2ll-ll2string 32 (negsuc (2 ^ 63 - 1)) (omega arith) (omega arith)

ll2string-string2ll_example :
    IsLongLong (negsuc 41) × (ll2string 32 (negsuc 41) ≡ some (b'-' ∷ b'4' ∷ b'2' ∷ []))
ll2string-string2ll_example =
    ll2string-string2ll (b'-' ∷ b'4' ∷ b'2' ∷ []) (negsuc 41)
      (unfold string2ll parse_number parse_digits in_range in refl)

-- A leading zero and a negative zero are refused.
leading_zero : string2ll (b'0' ∷ b'7' ∷ []) ≡ none
unfolding string2ll parse_number
leading_zero = refl

negative_zero : string2ll (b'-' ∷ b'0' ∷ []) ≡ none
unfolding string2ll parse_number
negative_zero = refl

-- A short buffer cuts the number.
short_buffer : ll2string 3 (pos 12345) ≡ some (b'1' ∷ b'2' ∷ [])
unfolding ll2string digits_loop
short_buffer = refl

-- strtoll by string2ll, which it agrees with on what that reads.
abbrev decimal : List ℕ → ℤ
decimal t = elim (string2ll t) [ none ↦ pos 0 | some v ↦ v ]

-- `64Kb`
memtoll_example :
    memtoll
      (λ u w. same_text (small_letters u) (small_letters w))
      decimal
      (b'6' ∷ b'4' ∷ b'K' ∷ b'b' ∷ [])
    ≡ (pos 65536, false)
memtoll_example =
    memtoll_lem (λ u w. same_text (small_letters u) (small_letters w)) decimal false b'6'
      (b'4' ∷ []) (b'K' ∷ b'b' ∷ []) (pos 64) 1024 (λ u w. refl) (λ t v e. rw (e, decimal) refl)
      refl (omega arith) (unfold string2ll parse_number parse_digits in_range in refl) kilo
      (omega arith)
