-- ===== src/Aof/Read.antt =====
-- What catAppendOnlyGenericCommand of redis-2.6.12/src/aof.c writes, as processMultibulkBuffer of
-- redis-2.6.12/src/networking.c reads it.
use mathlib.Core.List.{append_assoc, append-nil}
use commit_redis.Prelude.{
  ◌<◌, ℕ, suc, ◌+◌, ◌*◌, ◌≤◌, ◌≡◌, refl, ap, sym, ◌∙◌, true, false, none, some, List, [], ◌∷◌, ◌++◌,
  ltb, length, length-append, arith,
}
use commit_redis.Prelude.Int.{pos}
use commit_redis.Util.Number.{string2ll}
use commit_redis.Aof.Defs.{
  sds_max, number_line, cat_len, cat_bulks, cat_append_only_generic_command,
}
use commit_redis.Protocol.Defs.{
  Client, LoopResult, bulk_loop, read_bulk, done, process_multibulk_buffer,
}
use commit_redis.Protocol.Lines.{longer}
use commit_redis.Aof.Lines.{
  Ends, number_line_lem, take-length, drop-length, read_bulk_len-line, read_mbulk_len-line,
}

-- Every argument is short enough for a bulk.
abbrev pub AllShort : List (List ℕ) → Type 0
AllShort [] = Unit
AllShort (arg ∷ argv) = (length arg ≤ 512 * 1024 * 1024) × AllShort argv

-- The bytes of one argument, whose length is written as `s`, and those behind it.
abbrev pub bulk_bytes : List ℕ → List ℕ → List ℕ → List ℕ
bulk_bytes s arg tail = b'$' ∷ (s ++ (b'\r' ∷ b'\n' ∷ (arg ++ (b'\r' ∷ b'\n' ∷ tail))))

pub bulk_bytes-append :
    (s arg tail rest : List ℕ) → bulk_bytes s arg tail ++ rest ≡ bulk_bytes s arg (tail ++ rest)
bulk_bytes-append s arg tail rest =
    rw
      (
        append_assoc s (b'\r' ∷ b'\n' ∷ (arg ++ (b'\r' ∷ b'\n' ∷ tail))) rest,
        append_assoc arg (b'\r' ∷ b'\n' ∷ tail) rest,
      )
      refl

pub append-bulk_bytes :
    (dst s arg tail : List ℕ)
    → (((dst ++ (b'$' ∷ (s ++ (b'\r' ∷ b'\n' ∷ [])))) ++ arg) ++ (b'\r' ∷ b'\n' ∷ [])) ++ tail
      ≡ dst ++ bulk_bytes s arg tail
append-bulk_bytes dst s arg tail =
    append_assoc _ (b'\r' ∷ b'\n' ∷ []) tail
    ∙ append_assoc _ arg (b'\r' ∷ b'\n' ∷ tail)
    ∙ append_assoc dst _ (arg ++ (b'\r' ∷ b'\n' ∷ tail))
    ∙ ap (λ l. dst ++ (b'$' ∷ l))
        (append_assoc s (b'\r' ∷ b'\n' ∷ []) (arg ++ (b'\r' ∷ b'\n' ∷ tail)))

bulk_loop-bulk_bytes :
    (n t : ℕ) (before : List (List ℕ)) (s arg tail : List ℕ) (r : LoopResult)
    → string2ll s ≡ some (pos (length arg))
    → Ends s
    → length arg ≤ 512 * 1024 * 1024
    → ((t : ℕ) → bulk_loop n t none (before ++ (arg ∷ [])) tail ≡ r)
    → bulk_loop (suc n) t none before (bulk_bytes s arg tail) ≡ r
unfolding bulk_loop read_bulk
bulk_loop-bulk_bytes n t before s arg tail r reads ends le again =
    let back = b'\r' ∷ b'\n' ∷ tail in
    let room : ltb (length (arg ++ back)) (length arg + 2) ≡ false =
      longer _ _ (omega (arith, length-append arg back)) in
    rw (read_bulk_len-line t (length arg) s (arg ++ back) reads ends le)
      (rw (room, take-length arg back, drop-length arg back 2) (again _))

-- At most the bytes that the loop over the arguments adds.
abbrev pub bulk_size : List (List ℕ) → ℕ
bulk_size [] = 0
bulk_size (arg ∷ argv) = length arg + 40 + bulk_size argv

-- At most the bytes of a request.
abbrev pub request_size : List (List ℕ) → ℕ
request_size argv = bulk_size argv + 40

pub cat_len_lem :
    (dst t : List ℕ) → length dst + length t < sds_max → cat_len dst t ≡ some (dst ++ t)
unfolding cat_len
cat_len_lem dst t less =
    let fits : ltb (length dst + length t) sds_max ≡ true = ground arith in rw fits refl

-- One argument of the loop, whose length is written as `s`.
pub cat_bulks-step :
    (dst s arg : List ℕ) (argv : List (List ℕ)) (out : List ℕ)
    → number_line b'$' (length arg) ≡ some (b'$' ∷ (s ++ (b'\r' ∷ b'\n' ∷ [])))
    → length s ≤ 30
    → length dst + (length arg + 40) < sds_max
    → cat_bulks
        (((dst ++ (b'$' ∷ (s ++ (b'\r' ∷ b'\n' ∷ [])))) ++ arg) ++ (b'\r' ∷ b'\n' ∷ []))
        argv
      ≡ some out
    → cat_bulks dst (arg ∷ argv) ≡ some out
unfolding cat_bulks
cat_bulks-step dst s arg argv out prints short room rest =
    let line = b'$' ∷ (s ++ (b'\r' ∷ b'\n' ∷ [])) in
    let len : length line ≡ length s + 3 = omega (arith, length-append s (b'\r' ∷ b'\n' ∷ [])) in
    rw
      (
        prints,
        cat_len_lem dst line (omega (arith, len, short, room)),
        cat_len_lem (dst ++ line) arg (omega (arith, len, short, room, length-append dst line)),
        cat_len_lem ((dst ++ line) ++ arg) (b'\r' ∷ b'\n' ∷ []) (
            omega
              (arith, len, short, room, length-append dst line, length-append (dst ++ line) arg)),
      )
      rest

-- The length of a text and one argument more.
pub length-step :
    (dst s arg : List ℕ)
    → length (((dst ++ (b'$' ∷ (s ++ (b'\r' ∷ b'\n' ∷ [])))) ++ arg) ++ (b'\r' ∷ b'\n' ∷ []))
      ≡ length dst + length s + length arg + 5
length-step dst s arg =
    let line = b'$' ∷ (s ++ (b'\r' ∷ b'\n' ∷ [])) in
    omega (
      arith,
      length-append s (b'\r' ∷ b'\n' ∷ []),
      length-append dst line,
      length-append (dst ++ line) arg,
      length-append ((dst ++ line) ++ arg) (b'\r' ∷ b'\n' ∷ []),
    )

-- The bytes that the loop over the arguments adds are read back by the loop over the bulks.
cat_bulks-read :
    (argv : List (List ℕ))
    → AllShort argv
    → (bytes : List ℕ) × ((dst : List ℕ)
        → length dst + bulk_size argv < sds_max
        → cat_bulks dst argv ≡ some (dst ++ bytes))
      × ((t : ℕ) (before : List (List ℕ)) (rest : List ℕ)
          → bulk_loop (length argv) t none before (bytes ++ rest) ≡ done (before ++ argv) rest)
unfolding cat_bulks bulk_loop
cat_bulks-read [] short = (
  [],
  λ dst room. ap some (sym (append-nil dst)),
  λ t before rest. ap (λ x. done x rest) (sym (append-nil before)),
)
cat_bulks-read (arg ∷ argv) (le, short) =
    let (s, prints, reads, ends, digits) = number_line_lem b'$' (length arg) (omega arith) in
    let (bytes, writes, loops) = cat_bulks-read argv short in
    (
      bulk_bytes s arg bytes,
      λ dst room. cat_bulks-step dst s arg argv _ prints digits (omega (arith, room)) (
          writes _ (omega (arith, room, digits, length-step dst s arg))
          ∙ ap some (append-bulk_bytes dst s arg bytes)),
      λ t before rest.
          ap (bulk_loop (suc (length argv)) t none before) (bulk_bytes-append s arg bytes rest)
          ∙ bulk_loop-bulk_bytes (length argv) t before s arg (bytes ++ rest) _ reads ends le (λ t₁.
            loops t₁ (before ++ (arg ∷ [])) rest
            ∙ ap (λ x. done x rest) (append_assoc before (arg ∷ []) argv)),
    )

number_line-read :
    (c : Client) (n : ℕ) (s bytes rest : List ℕ) (argv : List (List ℕ))
    → string2ll s ≡ some (pos (suc n))
    → Ends s
    → suc n ≤ 1024 * 1024
    → ((t : ℕ) → bulk_loop (suc n) t none [] (bytes ++ rest) ≡ done argv rest)
    → c.multibulklen ≡ 0
    → c.bulklen ≡ none
    → c.argv ≡ []
    → process_multibulk_buffer
        (record c { querybuf = (b'*' ∷ (s ++ (b'\r' ∷ b'\n' ∷ bytes))) ++ rest })
      ≡ some (true, record c { querybuf = rest; multibulklen = 0; bulklen = none; argv = argv })
unfolding process_multibulk_buffer
number_line-read c n s bytes rest argv reads ends le loop idle unknown clean =
    rw
      (
        idle,
        unknown,
        clean,
        append_assoc s (b'\r' ∷ b'\n' ∷ bytes) rest,
        read_mbulk_len-line (suc n) s (bytes ++ rest) reads ends le,
        loop (length (b'*' ∷ (s ++ (b'\r' ∷ b'\n' ∷ (bytes ++ rest))))),
      )
      refl

-- The request that catAppendOnlyGenericCommand adds to a string, for one argument or more, up to 1024 *
-- 1024 arguments of up to 512 MB each, where the string stays under 2 ^ 31 - 2 ^ 20 bytes, of which 40 for
-- each argument and 40 more are counted for the lines with numbers, is read by processMultibulkBuffer into
-- the same arguments, for a client that was reset, and the bytes behind the request stay in the buffer.
pub process_multibulk_buffer-cat_append_only_generic_command :
    (c : Client) (arg : List ℕ) (argv : List (List ℕ)) (dst rest : List ℕ)
    → AllShort (arg ∷ argv)
    → length (arg ∷ argv) ≤ 1024 * 1024
    → length dst + request_size (arg ∷ argv) < sds_max
    → c.multibulklen ≡ 0
    → c.bulklen ≡ none
    → c.argv ≡ []
    → (request : List ℕ) × (cat_append_only_generic_command dst (arg ∷ argv)
        ≡ some (dst ++ request))
      × (process_multibulk_buffer (record c { querybuf = request ++ rest })
          ≡ some (
            true,
            record c { querybuf = rest; multibulklen = 0; bulklen = none; argv = arg ∷ argv },
          ))
unfolding cat_append_only_generic_command
process_multibulk_buffer-cat_append_only_generic_command c arg argv dst rest short le room idle
      unknown clean =
    let (s, prints, reads, ends, digits) =
      number_line_lem b'*' (length (arg ∷ argv)) (omega arith) in
    let (bytes, writes, loops) = cat_bulks-read (arg ∷ argv) short in
    let line = b'*' ∷ (s ++ (b'\r' ∷ b'\n' ∷ [])) in
    let len : length line ≡ length s + 3 = omega (arith, length-append s (b'\r' ∷ b'\n' ∷ [])) in
    (
      b'*' ∷ (s ++ (b'\r' ∷ b'\n' ∷ bytes)),
      rw (prints, cat_len_lem dst line (omega (arith, len, digits, room)))
          (writes (dst ++ line) (omega (arith, len, digits, room, length-append dst line))
            ∙ ap some (
                append_assoc dst line bytes
                ∙ ap (λ l. dst ++ (b'*' ∷ l)) (append_assoc s (b'\r' ∷ b'\n' ∷ []) bytes))),
      number_line-read c (length argv) s bytes rest (arg ∷ argv) reads ends le
          (λ t. loops t [] rest) idle unknown clean,
    )
