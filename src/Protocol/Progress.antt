-- ===== src/Protocol/Progress.antt =====
-- Every round of processInputBuffer of redis-2.6.12/src/networking.c takes bytes off the buffer, and no
-- assertion fails.
use commit_redis.Prelude.{
  ℕ, zero, suc, ◌+◌, ◌-◌, ◌≤◌, ◌<◌, ◌≡◌, refl, ap, Bool, true, false, Bool-cases, Option-cases, inl,
  inr, Option, none, some, List, [], ltb, ◌==◌, if◌then◌else◌, length, length-drop, arith, is_nil,
  take, drop,
}
use commit_redis.Protocol.Defs.{
  redis_inline_max_size, LineResult, known, more, too_long, bad, invalid_mbulk_length,
  read_bulk_len, read_mbulk_len, mbulk_line, find_cr, LoopResult, done, paused, failed, bulk_loop,
  read_bulk, after_line, Client, after_loop, after_mbulk_line, process_multibulk_buffer, head_is,
  mbulk_count,
}
use commit_redis.Protocol.Input.{find_crlf, process_inline_buffer}
use commit_redis.Util.Number.{string2ll}
use commit_redis.Protocol.Lines.{shorter, read_bulk_len-length, read_mbulk_len-length}

-- A loop that reads all its bulks takes a byte for each at least.
abbrev Takes : ℕ → Option ℕ → Type 0
Takes n bl =
    (t : ℕ) (argv : List (List ℕ)) (xs : List ℕ) (argv' : List (List ℕ)) (xs' : List ℕ)
    → bulk_loop n t bl argv xs ≡ done argv' xs'
    → length xs' + n ≤ length xs

rest_of : LoopResult → List ℕ
rest_of (done argv xs) = xs
rest_of (paused n bl argv xs) = xs
rest_of (failed e n argv xs) = xs

bulk_loop-Takes_bulk : (n ll : ℕ) → Takes n none → Takes (suc n) (some ll)
unfolding bulk_loop read_bulk
bulk_loop-Takes_bulk n ll again t argv xs argv' xs' e =
    elim (Bool-cases (ltb (length xs) (ll + 2))) [
      | inl short ↦ cc (rw short at e)
      | inr whole ↦ omega (
        arith,
        length-drop (ll + 2) xs,
        shorter (length xs) (ll + 2) whole,
        again _ _ (drop (ll + 2) xs) argv' xs' (rw whole at e),
      )
    ]

bulk_loop-Takes : (n : ℕ) (bl : Option ℕ) → Takes n bl
unfolding bulk_loop rest_of
bulk_loop-Takes zero bl t argv xs argv' xs' e = omega (arith, ap (λ r. length (rest_of r)) e)
bulk_loop-Takes (suc n) (some ll) t argv xs argv' xs' e =
    bulk_loop-Takes_bulk n ll (bulk_loop-Takes n none) t argv xs argv' xs' e
bulk_loop-Takes (suc n) none t argv xs argv' xs' e =
    after_line-Takes (bulk_loop-Takes n none) (read_bulk_len t xs) refl e
  where
    after_line-Takes :
        Takes n none
        → (r : LineResult) → read_bulk_len t xs ≡ r
        → after_line (λ t₀. bulk_loop n t₀ none) n t argv xs r ≡ done argv' xs'
        → length xs' + suc n ≤ length xs
    after_line-Takes again (known ll rest) line e' = omega (
      arith,
      read_bulk_len-length t xs rest ll line,
      bulk_loop-Takes_bulk n ll again _ argv rest argv' xs' e',
    )
    after_line-Takes again more line e' = cc
    after_line-Takes again too_long line e' = cc
    after_line-Takes again (bad b) line e' = cc

-- A client whose buffer processInputBuffer may read.
abbrev pub IsReady : Client → Type 0
IsReady c =
    (c.multibulklen ≡ 0 → c.argv ≡ [])
    × (c.reqtype ≡ some true → c.multibulklen ≡ 0 → head_is b'*' c.querybuf ≡ true)

-- What one of the two parsers may answer for a buffer of `m` bytes.
abbrev pub Progress : ℕ → Option (Bool × Client) → Type 0
Progress m none = ⊥
Progress m (some (true, c)) = length c.querybuf < m
Progress m (some (false, c)) = IsReady c

after_loop-Progress :
    (c : Client) (m n t : ℕ) (bl : Option ℕ) (argv : List (List ℕ)) (xs : List ℕ)
    → length xs < m + n
    → Progress m (some (after_loop c (bulk_loop n t bl argv xs)))
after_loop-Progress c m n t bl argv xs h = at_result (bulk_loop n t bl argv xs) refl
  where
    at_result : (r : LoopResult) → bulk_loop n t bl argv xs ≡ r → Progress m (some (after_loop c r))
    at_result (done argv' xs') there = omega (arith, bulk_loop-Takes n bl t argv xs argv' xs' there)
    at_result (paused n' bl' argv' xs') there =
        ((λ e. absurd (omega arith)), λ r e. absurd (omega arith))
    at_result (failed err n' argv' xs') there =
        ((λ e. absurd (omega arith)), λ r e. absurd (omega arith))

-- The first line is looked at where the buffer starts with the byte for it.
read_mbulk_len-some :
    (xs : List ℕ) → head_is b'*' xs ≡ true → (r : LineResult) × (read_mbulk_len xs ≡ some r)
unfolding read_mbulk_len mbulk_line
read_mbulk_len-some xs star = elim (Option-cases (find_cr xs)) [
  | inl gone ↦ (
    if ltb redis_inline_max_size (length xs) then too_long else more,
    rw (gone, read_mbulk_len) refl,
  )
  | inr (i, there) ↦ elim (Bool-cases (ltb (length xs) (i + 2))) [
    | inl short ↦ (more, rw (there, read_mbulk_len) (rw short refl))
    | inr whole ↦ (
      elim (mbulk_count (string2ll (take (i - 1) (drop 1 xs)))) [
        | none ↦ bad invalid_mbulk_length
        | some n ↦ known n (drop (i + 2) xs)
      ],
      rw (there, read_mbulk_len) (rw (whole, star) refl),
    )
  ]
]

after_mbulk_line-Progress :
    (c : Client) (r : LineResult)
    → IsReady c
    → read_mbulk_len c.querybuf ≡ some r
    → Progress (length c.querybuf) (after_mbulk_line c (some r))
after_mbulk_line-Progress c (known zero rest) ready line =
    read_mbulk_len-length c.querybuf rest 0 line
after_mbulk_line-Progress c (known (suc n) rest) ready line =
    after_loop-Progress c _ (suc n) _ c.bulklen [] rest
      (omega (arith, read_mbulk_len-length c.querybuf rest (suc n) line))
after_mbulk_line-Progress c more ready line = ready
after_mbulk_line-Progress c too_long ready line = ready
after_mbulk_line-Progress c (bad b) ready line = ready

pub process_multibulk_buffer-Progress :
    (c : Client)
    → IsReady c
    → c.reqtype ≡ some true
    → Progress (length c.querybuf) (process_multibulk_buffer c)
unfolding process_multibulk_buffer
process_multibulk_buffer-Progress c ready kind = elim (Bool-cases (c.multibulklen == 0)) [
  | inr within ↦
      rw (within, process_multibulk_buffer)
        (after_loop-Progress c _ c.multibulklen _ c.bulklen c.argv c.querybuf (ground arith))
  | inl fresh ↦
      let idle : c.multibulklen ≡ 0 = ground arith in
      let clean : is_nil c.argv ≡ true = ap is_nil (ready.0 idle) in
      let (r, line) = read_mbulk_len-some c.querybuf (ready.1 kind idle) in
      rw (fresh, clean, line) (after_mbulk_line-Progress c r ready line)
]

pub process_inline_buffer-Progress :
    (c : Client)
    → IsReady c
    → 0 < length c.querybuf
    → Progress (length c.querybuf) (some (process_inline_buffer c))
unfolding process_inline_buffer
process_inline_buffer-Progress c ready full = elim (Option-cases (find_crlf c.querybuf)) [
  | inr (i, there) ↦
      rw (there, Progress, process_inline_buffer) (omega (arith, length-drop (i + 2) c.querybuf))
  | inl gone ↦ elim (Bool-cases (ltb redis_inline_max_size (length c.querybuf))) [
    | inl long ↦ rw (gone, Progress, process_inline_buffer) (rw (long, Progress) ready)
    | inr short ↦ rw (gone, Progress, process_inline_buffer) (rw (short, Progress) ready)
  ]
]
