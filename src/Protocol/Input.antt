-- ===== src/Protocol/Input.antt =====
-- processInlineBuffer, resetClient and the loop of processInputBuffer of
-- redis-2.6.12/src/networking.c.
use commit_redis.Prelude.{
  ℕ, zero, suc, ◌+◌, Bool, true, false, ◌&&◌, Option, none, some, List, [], ◌∷◌, ltb, ◌==◌,
  if◌then◌else◌, length, take, drop, is_nil,
}
use commit_redis.Protocol.Defs.{
  big_inline_request, redis_inline_max_size, Client, protocol_error, head_is,
  process_multibulk_buffer,
}

-- strstr(querybuf, "\r\n"), which stops at a zero byte.
abbrev pub find_crlf : List ℕ → Option ℕ
find_crlf [] = none
find_crlf (c ∷ r) =
    let rest : Option ℕ = elim (find_crlf r) [ none ↦ none | some i ↦ some (suc i) ] in
    if c == 0 then none else if (c == b'\r') && head_is b'\n' r then some 0 else rest

-- sdssplitlen by one space, less the empty parts.
abbrev pub push_part : List ℕ → List (List ℕ) → List (List ℕ)
push_part part parts = if is_nil part then parts else part ∷ parts

abbrev pub first_part : List (List ℕ) → List ℕ
first_part [] = []
first_part (p ∷ ps) = p

abbrev pub other_parts : List (List ℕ) → List (List ℕ)
other_parts [] = []
other_parts (p ∷ ps) = ps

-- The loop of sdssplitlen: the parts between the spaces, one at least.
unfoldable pub split_spaces : List ℕ → List (List ℕ)
split_spaces [] = [] ∷ []
split_spaces (c ∷ r) =
    let parts = split_spaces r in
    if c == b' ' then [] ∷ parts else (c ∷ first_part parts) ∷ other_parts parts

-- sdssplitlen(line, " "), which answers no part at all for an empty line.
abbrev pub sds_split_len : List ℕ → List (List ℕ)
sds_split_len [] = []
sds_split_len (c ∷ r) = split_spaces (c ∷ r)

abbrev pub without_empty : List (List ℕ) → List (List ℕ)
without_empty [] = []
without_empty (p ∷ ps) = push_part p (without_empty ps)

-- processInlineBuffer
unfoldable pub process_inline_buffer : Client → Bool × Client
process_inline_buffer c = elim (find_crlf c.querybuf) [
  | none ↦
      if ltb redis_inline_max_size (length c.querybuf)
      then (false, protocol_error c big_inline_request c.querybuf)
      else (false, c)
  | some i ↦ (
    true,
    record c {
      querybuf = drop (i + 2) c.querybuf;
      argv = without_empty (sds_split_len (take i c.querybuf));
    },
  )
]

-- resetClient
abbrev pub reset_client : Client → Client
reset_client c = record c { argv = []; reqtype = none; multibulklen = 0; bulklen = none }

abbrev pub is_multibulk : Client → Bool
is_multibulk c = elim c.reqtype [ none ↦ head_is b'*' c.querybuf | some b ↦ b ]

-- A request that was read is run, and the client reset where it was; `again` is the next round.
unfoldable pub execute :
    {X : Type 0}
    → (X → Client → X × Bool × Client)
    → (X → Client → Option (X × Client))
    → X
    → Client
    → Option (X × Client)
execute run again x c = elim (is_nil c.argv) [
  | true ↦ again x (reset_client c)
  | false ↦ let (x', ok, c') = run x c in again x' (if ok then reset_client c' else c')
]

-- What follows the parser of a request.
abbrev pub after_request :
    {X : Type 0}
    → (X → Client → X × Bool × Client)
    → (X → Client → Option (X × Client))
    → X
    → Option (Bool × Client)
    → Option (X × Client)
after_request run again x none = none
after_request run again x (some (false, c)) = some (x, c)
after_request run again x (some (true, c)) = execute run again x c

-- The loop of processInputBuffer. `run` is processCommand on the state of the server: its answer is
-- that state, whether it is REDIS_OK, and the client. `none` is a failed assertion or a loop that goes
-- on.
unfoldable pub input_loop :
    {X : Type 0} → (X → Client → X × Bool × Client) → ℕ → X → Client → Option (X × Client)
input_loop run zero x c = none
input_loop run (suc fuel) x c =
    let c₁ = record c { reqtype = some (is_multibulk c) } in
    let parsed =
      if is_multibulk c then process_multibulk_buffer c₁ else some (process_inline_buffer c₁) in
    if is_nil c.querybuf
    then some (x, c)
    else if c.blocked
    then some (x, c)
    else if c.closing
    then some (x, c)
    else after_request run (input_loop run fuel) x parsed
