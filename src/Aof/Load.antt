-- ===== src/Aof/Load.antt =====
-- The loop of loadAppendOnlyFile of redis-2.6.12/src/aof.c over the bytes of a file, on which no
-- read fails but at its end, and the functions of the C library that it reads with.
use commit_redis.Prelude.{
  ℕ, zero, suc, ◌+◌, ◌-◌, ◌*◌, ◌^◌, Bool, ◌&&◌, ◌||◌, Option, none, some, List, [], ◌∷◌, ◌++◌, ltb,
  leb, ◌==◌, if◌then◌else◌, length, take, drop, min,
}
use commit_redis.Prelude.Int.{ℤ, pos, negsuc}
use commit_redis.Util.Number.{is_digit}
use commit_redis.Protocol.Defs.{head_is}

-- What fgets reads where it has room for that many bytes, and the bytes behind.
unfoldable pub line_of : ℕ → List ℕ → List ℕ × List ℕ
line_of zero file = ([], file)
line_of (suc room) [] = ([], [])
line_of (suc room) (c ∷ r) =
    let (line, rest) = line_of room r in if c == b'\n' then (c ∷ [], r) else (c ∷ line, rest)

-- fgets(buf, 128, fp): `none` is NULL.
abbrev pub fgets : List ℕ → Option (List ℕ × List ℕ)
fgets [] = none
fgets (c ∷ r) = some (line_of 127 (c ∷ r))

abbrev pub is_space : ℕ → Bool
is_space c = (c == b' ') || (leb 9 c && leb c 13)

unfoldable pub skip_spaces : List ℕ → List ℕ
skip_spaces [] = []
skip_spaces (c ∷ r) = let rest = skip_spaces r in if is_space c then rest else c ∷ r

-- The number that the digits at the start make, behind the digits of `v`.
unfoldable pub digits_value : ℕ → List ℕ → ℕ
digits_value v [] = v
digits_value v (c ∷ r) =
    let more = digits_value (v * 10 + (c - b'0')) r in if is_digit c then more else v

-- A negative number of that magnitude, at least LONG_MIN.
abbrev pub negated : ℕ → ℤ
negated zero = pos 0
negated (suc n) = negsuc (min n (2 ^ 63 - 1))

-- strtol(s, NULL, 10) with a long of 64 bits.
unfoldable pub signed_value : List ℕ → ℤ
signed_value [] = pos 0
signed_value (c ∷ r) =
    if c == b'-'
    then negated (digits_value 0 r)
    else pos (min (digits_value 0 (if c == b'+' then r else c ∷ r)) (2 ^ 63 - 1))

abbrev pub strtol : List ℕ → ℤ
strtol s = signed_value (skip_spaces s)

-- The conversion of a long to an unsigned long.
abbrev pub to_unsigned : ℤ → ℕ
to_unsigned (pos n) = n
to_unsigned (negsuc n) = 2 ^ 64 - (n + 1)

-- What stops a load: the jumps to `readerr` and to `fmterr`, a number that no int holds, so that what
-- atoi answers is undefined or the length of a string wraps, and a command that is unknown or fails an assertion.
pub data LoadError : Type 0 where
  readerr fmterr undefined refused : LoadError

pub data Args : Type 0 where
  got : List (List ℕ) → List ℕ → Args
  stopped : LoadError → Args

-- fread of the bytes of an argument, and of the end of the line behind it. From 2 ^ 31 bytes on the int
-- length of the string that sdsnewlen makes is not that of the argument.
unfoldable pub read_arg : (List (List ℕ) → List ℕ → Args) → ℕ → List (List ℕ) → List ℕ → Args
read_arg again len argv file =
    if leb (2 ^ 31) len
    then stopped undefined
    else if ltb (length file) len
    then stopped fmterr
    else if ltb (length (drop len file)) 2
    then stopped fmterr
    else again (argv ++ (take len file ∷ [])) (drop 2 (drop len file))

-- The loop over the arguments that are left.
unfoldable pub read_args : ℕ → List (List ℕ) → List ℕ → Args
read_args zero argv file = got argv file
read_args (suc n) argv file = elim (fgets file) [
  | none ↦ stopped readerr
  | some line_rest ↦
      if head_is b'$' line_rest.0
      then read_arg (read_args n) (to_unsigned (strtol (drop 1 line_rest.0))) argv line_rest.1
      else stopped fmterr
]

pub data Loaded (X : Type 0) : Type 0 where
  loaded : X → Loaded X
  failed : LoadError → Loaded X
  goes_on : Loaded X

-- `run` looks a command up and runs it for the fake client; the state of the server and of that client
-- is `X`. `none` is an exit.
module _ {X : Type 0} (run : X → List (List ℕ) → Option X) (in_multi : X → Bool) where
  abbrev pub run_command : (X → List ℕ → Loaded X) → X → Args → Loaded X
  run_command again x (stopped e) = failed e
  run_command again x (got argv file) = elim (run x argv) [
    | none ↦ failed refused
    | some x' ↦ again x' file
  ]

  -- The answer of atoi, and then the arguments.
  abbrev pub load_command : (X → List ℕ → Loaded X) → X → ℤ → List ℕ → Loaded X
  load_command again x (negsuc n) file = if ltb n (2 ^ 31) then failed fmterr else failed undefined
  load_command again x (pos zero) file = failed fmterr
  load_command again x (pos (suc n)) file =
      let args = read_args (suc n) [] file in
      if ltb (suc n) (2 ^ 31) then run_command again x args else failed undefined

  unfoldable pub load_loop : ℕ → X → List ℕ → Loaded X
  load_loop zero x file = goes_on
  load_loop (suc fuel) x file = elim (fgets file) [
    | none ↦ if in_multi x then failed readerr else loaded x
    | some line_rest ↦
        if head_is b'*' line_rest.0
        then load_command (load_loop fuel) x (strtol (drop 1 line_rest.0)) line_rest.1
        else failed fmterr
  ]

  -- loadAppendOnlyFile of a file that could be opened: `none` is REDIS_ERR for an empty one.
  abbrev pub load_append_only_file : ℕ → X → List ℕ → Option (Loaded X)
  load_append_only_file fuel x [] = none
  load_append_only_file fuel x (c ∷ r) = some (load_loop fuel x (c ∷ r))
