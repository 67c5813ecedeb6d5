-- ===== src/Protocol/Defs.antt =====
-- processMultibulkBuffer of redis-2.6.12/src/networking.c. A failed assertion is `none`.
use commit_redis.Prelude.{
  ℕ, zero, suc, ◌+◌, ◌-◌, ◌*◌, Bool, true, false, ◌&&◌, not, Option, none, some, List, [], ◌∷◌,
  ◌++◌, ltb, leb, ◌==◌, if◌then◌else◌, length, take, drop, is_nil,
}
use commit_redis.Prelude.Int.{ℤ, pos, negsuc}
use commit_redis.Util.Number.{string2ll}

abbrev pub redis_inline_max_size : ℕ
redis_inline_max_size = 1024 * 64

abbrev pub redis_mbulk_big_arg : ℕ
redis_mbulk_big_arg = 1024 * 32

pub data ProtocolError : Type 0 where
  big_inline_request big_mbulk_count invalid_mbulk_length big_bulk_count invalid_bulk_length :
      ProtocolError
  expected_dollar : ℕ → ProtocolError

-- The fields of a client that the parser keeps. `bulklen` is -1 as `none`; `argc` is the length of
-- `argv`; `reqtype` is 0 as `none`, else whether it is REDIS_REQ_MULTIBULK; `closing` is the flag
-- REDIS_CLOSE_AFTER_REPLY; the newest error is first.
pub record Client : Type 0 where
  pub querybuf : List ℕ
  pub reqtype : Option Bool
  pub multibulklen : ℕ
  pub bulklen : Option ℕ
  pub argv : List (List ℕ)
  pub errors : List ProtocolError
  pub closing : Bool
  pub blocked : Bool

-- strchr(s, '\r'), which stops at a zero byte: the distance to it.
abbrev pub find_cr : List ℕ → Option ℕ
find_cr [] = none
find_cr (c ∷ r) =
    let rest : Option ℕ = elim (find_cr r) [ none ↦ none | some i ↦ some (suc i) ] in
    if c == 0 then none else if c == b'\r' then some 0 else rest

-- addReplyError and setProtocolError, with the buffer from the position on.
abbrev pub protocol_error : Client → ProtocolError → List ℕ → Client
protocol_error c e buf = record c { errors = e ∷ c.errors; closing = true; querybuf = buf }

pub data LineResult : Type 0 where
  known : ℕ → List ℕ → LineResult
  more : LineResult
  too_long : LineResult
  bad : ProtocolError → LineResult

-- A length as string2ll reads it, where it lies in the range of a bulk.
abbrev pub bulk_length : Option ℤ → Option ℕ
bulk_length none = none
bulk_length (some (negsuc n)) = none
bulk_length (some (pos n)) = if ltb (512 * 1024 * 1024) n then none else some n

abbrev pub head_is : ℕ → List ℕ → Bool
head_is b [] = false
head_is b (c ∷ r) = c == b

abbrev pub head_or_zero : List ℕ → ℕ
head_or_zero [] = 0
head_or_zero (c ∷ r) = c

-- A line that ends at `i`, where the buffer holds the byte behind it too.
unfoldable pub bulk_line : ℕ → List ℕ → LineResult
bulk_line i rest =
    if ltb (length rest) (i + 2)
    then more
    else if head_is b'$' rest
    then elim (bulk_length (string2ll (take (i - 1) (drop 1 rest)))) [
      | none ↦ bad invalid_bulk_length
      | some n ↦ known n (drop (i + 2) rest)
    ]
    else bad (expected_dollar (head_or_zero rest))

-- The part of the loop that reads the length of a bulk: `total` is sdslen(c->querybuf), `rest` the
-- bytes from `pos` on.
unfoldable pub read_bulk_len : ℕ → List ℕ → LineResult
read_bulk_len total rest = elim (find_cr rest) [
  | none ↦ if ltb redis_inline_max_size total then too_long else more
  | some i ↦ bulk_line i rest
]

-- How the loop is left: with all bulks read, to go on with more bytes, or by an error. The bytes are
-- those from `pos` on, to which the buffer is trimmed; n + 1 bulks are left in `paused n`
-- and in `failed e n`.
pub data LoopResult : Type 0 where
  done : List (List ℕ) → List ℕ → LoopResult
  paused : ℕ → Option ℕ → List (List ℕ) → List ℕ → LoopResult
  failed : ProtocolError → ℕ → List (List ℕ) → List ℕ → LoopResult

-- The part of the loop that reads a bulk of `ll` bytes; `again` is the next round. A big argument
-- that is all of the buffer is taken with it, and the buffer is empty then.
unfoldable pub read_bulk :
    (ℕ → List (List ℕ) → List ℕ → LoopResult) → ℕ → ℕ → ℕ → List (List ℕ) → List ℕ → LoopResult
read_bulk again n total ll argv rest =
    let all_of_it =
      (total == length rest) && (leb redis_mbulk_big_arg ll && (length rest == ll + 2)) in
    if ltb (length rest) (ll + 2)
    then paused n (some ll) argv rest
    else again (if all_of_it then 0 else total) (argv ++ (take ll rest ∷ [])) (drop (ll + 2) rest)

-- The part of the loop that reads a length and then its bulk. A big argument is moved to the start
-- of the buffer.
abbrev pub after_line :
    (ℕ → List (List ℕ) → List ℕ → LoopResult)
    → ℕ
    → ℕ
    → List (List ℕ)
    → List ℕ
    → LineResult
    → LoopResult
after_line again n total argv rest more = paused n none argv rest
after_line again n total argv rest too_long = failed big_bulk_count n argv rest
after_line again n total argv rest (bad e) = failed e n argv rest
after_line again n total argv rest (known ll rest') =
    read_bulk again n (if leb redis_mbulk_big_arg ll then length rest' else total) ll argv rest'

-- `while(c->multibulklen)`, which is `n`, over `total`, `bulklen`, `argv` and the bytes from `pos` on.
unfoldable pub bulk_loop : ℕ → ℕ → Option ℕ → List (List ℕ) → List ℕ → LoopResult
bulk_loop zero total bulklen argv rest = done argv rest
bulk_loop (suc n) total (some ll) argv rest =
    read_bulk (λ t. bulk_loop n t none) n total ll argv rest
bulk_loop (suc n) total none argv rest =
    after_line (λ t. bulk_loop n t none) n total argv rest (read_bulk_len total rest)

-- The client after the loop.
abbrev pub after_loop : Client → LoopResult → Bool × Client
after_loop c (done argv rest) =
    (true, record c { querybuf = rest; multibulklen = 0; bulklen = none; argv = argv })
after_loop c (paused n bulklen argv rest) =
    (false, record c { querybuf = rest; multibulklen = suc n; bulklen = bulklen; argv = argv })
after_loop c (failed e n argv rest) =
    (false, protocol_error (record c { multibulklen = suc n; bulklen = none; argv = argv }) e rest)

-- The number of bulks: zero for a number that is not positive.
abbrev pub mbulk_count : Option ℤ → Option ℕ
mbulk_count none = none
mbulk_count (some (negsuc n)) = some 0
mbulk_count (some (pos n)) = if ltb (1024 * 1024) n then none else some n

-- The first line of a request, `*` and the number of bulks; the outer `none` is a failed assertion.
unfoldable pub mbulk_line : ℕ → List ℕ → Option LineResult
mbulk_line i buf =
    if ltb (length buf) (i + 2)
    then some more
    else if head_is b'*' buf
    then some (elim (mbulk_count (string2ll (take (i - 1) (drop 1 buf)))) [
      | none ↦ bad invalid_mbulk_length
      | some n ↦ known n (drop (i + 2) buf)
    ])
    else none

unfoldable pub read_mbulk_len : List ℕ → Option LineResult
read_mbulk_len buf = elim (find_cr buf) [
  | none ↦ some (if ltb redis_inline_max_size (length buf) then too_long else more)
  | some i ↦ mbulk_line i buf
]

-- The client after the first line, with the loop for the bulks that it announces.
abbrev pub after_mbulk_line : Client → Option LineResult → Option (Bool × Client)
after_mbulk_line c none = none
after_mbulk_line c (some more) = some (false, c)
after_mbulk_line c (some too_long) = some (false, protocol_error c big_mbulk_count c.querybuf)
after_mbulk_line c (some (bad e)) = some (false, protocol_error c e c.querybuf)
after_mbulk_line c (some (known zero rest)) = some (true, record c { querybuf = rest })
after_mbulk_line c (some (known (suc n) rest)) =
    some (after_loop c (bulk_loop (suc n) (length c.querybuf) c.bulklen [] rest))

-- processMultibulkBuffer; the Boolean is whether the answer is REDIS_OK.
unfoldable pub process_multibulk_buffer : Client → Option (Bool × Client)
process_multibulk_buffer c =
    if not (c.multibulklen == 0)
    then some
        (after_loop c (bulk_loop c.multibulklen (length c.querybuf) c.bulklen c.argv c.querybuf))
    else if is_nil c.argv
    then after_mbulk_line c (read_mbulk_len c.querybuf)
    else none
