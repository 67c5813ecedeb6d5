-- ===== src/Aof/Defs.antt =====
-- catAppendOnlyGenericCommand of redis-2.6.12/src/aof.c. A string is the list of its bytes, and an
-- argument the string that getDecodedObject answers. `none` is a loop of ll2string
-- that goes on, or a string too long for an int.
use commit_redis.Prelude.{
  ℕ, ◌+◌, ◌-◌, ◌^◌, Option, none, some, List, [], ◌∷◌, ◌++◌, ◌>>=◌, length, ltb, if◌then◌else◌,
}
use commit_redis.Prelude.Int.{pos}
use commit_redis.Util.Number.{ll2string}

abbrev crlf : List ℕ
crlf = b'\r' ∷ b'\n' ∷ []

-- `buf`, which has room for 31 bytes behind its first: the byte, the number and the end of the line.
unfoldable pub number_line : ℕ → ℕ → Option (List ℕ)
number_line first n = do s ← ll2string 31 (pos n); some (first ∷ (s ++ crlf))

-- The longest text to which sdscatlen leaves room that an int counts.
abbrev pub sds_max : ℕ
sds_max = 2 ^ 31 - 2 ^ 20

-- sdscatlen by the texts of the strings. The sizes of a longer one do not fit its int fields.
unfoldable pub cat_len : List ℕ → List ℕ → Option (List ℕ)
cat_len dst t = if ltb (length dst + length t) sds_max then some (dst ++ t) else none

-- The loop over the arguments.
unfoldable pub cat_bulks : List ℕ → List (List ℕ) → Option (List ℕ)
cat_bulks dst [] = some dst
cat_bulks dst (arg ∷ argv) = do
  line ← number_line b'$' (length arg)
  dst₁ ← cat_len dst line
  dst₂ ← cat_len dst₁ arg
  dst₃ ← cat_len dst₂ crlf
  cat_bulks dst₃ argv

unfoldable pub cat_append_only_generic_command : List ℕ → List (List ℕ) → Option (List ℕ)
cat_append_only_generic_command dst argv = do
  line ← number_line b'*' (length argv)
  dst₁ ← cat_len dst line
  cat_bulks dst₁ argv
