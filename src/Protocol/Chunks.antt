-- ===== src/Protocol/Chunks.antt =====
-- processMultibulkBuffer of redis-2.6.12/src/networking.c, where the bytes of a request come in more
-- than one read.
use commit_redis.Prelude.{
  ℕ, zero, suc, ◌≤◌, ◌≡◌, refl, ap, sym, Bool, true, false, Bool-cases, inl, inr, Option, none,
  some, List, [], ◌++◌, ltb, ◌==◌, length, length-append, arith, is_nil,
}
use commit_redis.Protocol.Defs.{
  redis_inline_max_size, LineResult, known, more, too_long, bad, read_mbulk_len, LoopResult, done,
  paused, failed, bulk_loop, Client, after_loop, after_mbulk_line, process_multibulk_buffer,
}
use commit_redis.Protocol.Lines.{longer, read_mbulk_len-append, read_mbulk_len-length}
use commit_redis.Protocol.Resume.{bulk_loop-resumed, bulk_loop-length}

-- The client with the bytes that a read adds to its buffer.
abbrev pub with_bytes : List ℕ → Client → Client
with_bytes ys c = record c { querybuf = c.querybuf ++ ys }

answer_of : Client → Option (Bool × Client) → Bool × Client
answer_of c none = (false, c)
answer_of c (some p) = p

client_of : Client → Option (Bool × Client) → Client
client_of c none = c
client_of c (some p) = p.1

-- The client that is left with the result of a loop does not depend on what the loop changes.
after_loop-after_loop :
    (c : Client) (ys xs : List ℕ) (n : ℕ) (bl : Option ℕ) (argv : List (List ℕ)) (r : LoopResult)
    → after_loop
        (with_bytes ys (record c { querybuf = xs; multibulklen = n; bulklen = bl; argv = argv }))
        r
      ≡ after_loop (with_bytes ys c) r
after_loop-after_loop c ys xs n bl argv (done argv' xs') = refl
after_loop-after_loop c ys xs n bl argv (paused n' bl' argv' xs') = refl
after_loop-after_loop c ys xs n bl argv (failed e n' argv' xs') = refl

in_room :
    (m k : ℕ) → ltb redis_inline_max_size m ≡ false → k ≤ m → ltb redis_inline_max_size k ≡ false
in_room m k h le = ground arith

suc_is : (n : ℕ) → (suc n == 0) ≡ false
suc_is n = ground arith

-- A loop that paused goes on as one that had all the bytes.
after_loop-resumed :
    (c c' : Client) (ys xs : List ℕ) (n t t' : ℕ) (bl : Option ℕ) (argv : List (List ℕ))
    → c'.closing ≡ false
    → after_loop c (bulk_loop n t bl argv xs) ≡ (false, c')
    → ltb redis_inline_max_size t' ≡ false
    → ltb redis_inline_max_size (length (xs ++ ys)) ≡ false
    → process_multibulk_buffer (with_bytes ys c')
      ≡ some (after_loop (with_bytes ys c) (bulk_loop n t' bl argv (xs ++ ys)))
unfolding process_multibulk_buffer
after_loop-resumed c c' ys xs n t t' bl argv open_c e h room =
    at_result (bulk_loop n t bl argv xs) refl e
  where
    at_result :
        (r : LoopResult)
        → bulk_loop n t bl argv xs ≡ r
        → after_loop c r ≡ (false, c')
        → process_multibulk_buffer (with_bytes ys c')
          ≡ some (after_loop (with_bytes ys c) (bulk_loop n t' bl argv (xs ++ ys)))
    at_result (done argv' xs') there e' = cc
    at_result (paused n' bl' argv' xs') there e' =
        let c₂ : Client = record c {
          querybuf = xs';
          multibulklen = suc n';
          bulklen = bl';
          argv = argv';
        } in
        let same : c' ≡ c₂ = ap (λ p. p.1) (sym e') in
        let left = in_room (length (xs ++ ys)) (length (xs' ++ ys)) room (
          omega (
            arith,
            bulk_loop-length n bl t argv xs n' bl' argv' xs' there,
            length-append xs ys,
            length-append xs' ys,
          )) in
        rw
          (
            same,
            suc_is n',
            bulk_loop-resumed n bl t t' (length (xs' ++ ys)) argv xs ys n' bl' argv' xs' there h
                left room,
            after_loop-after_loop c ys xs' (suc n') bl' argv'
                (bulk_loop (suc n') (length (xs' ++ ys)) bl' argv' (xs' ++ ys)),
          )
          refl
    at_result (failed err n' argv' xs') there e' =
        let closed : true ≡ c'.closing = ap (λ p. p.1.closing) e' in cc

after_mbulk_line-resumed :
    (c c' : Client) (ys : List ℕ) (r : Option LineResult)
    → read_mbulk_len c.querybuf ≡ r
    → (c.multibulklen == 0) ≡ true
    → is_nil c.argv ≡ true
    → after_mbulk_line c r ≡ some (false, c')
    → c'.closing ≡ false
    → ltb redis_inline_max_size (length (c.querybuf ++ ys)) ≡ false
    → process_multibulk_buffer (with_bytes ys c') ≡ process_multibulk_buffer (with_bytes ys c)
unfolding process_multibulk_buffer client_of answer_of
after_mbulk_line-resumed c c' ys none line fresh clean e open_c room = cc
after_mbulk_line-resumed c c' ys (some more) line fresh clean e open_c room =
    let same : c ≡ c' = ap (client_of c) e in
    ap (λ d. process_multibulk_buffer (with_bytes ys d)) (sym same)
after_mbulk_line-resumed c c' ys (some too_long) line fresh clean e open_c room =
    let closed : true ≡ c'.closing = ap (λ p. (client_of c p).closing) e in cc
after_mbulk_line-resumed c c' ys (some (bad b)) line fresh clean e open_c room =
    let closed : true ≡ c'.closing = ap (λ p. (client_of c p).closing) e in cc
after_mbulk_line-resumed c c' ys (some (known zero rest)) line fresh clean e open_c room = cc
after_mbulk_line-resumed c c' ys (some (known (suc n) rest)) line fresh clean e open_c room =
    let left = in_room (length (c.querybuf ++ ys)) (length (rest ++ ys)) room (
      omega (
        arith,
        read_mbulk_len-length c.querybuf rest (suc n) line,
        length-append c.querybuf ys,
        length-append rest ys,
      )) in
    rw (fresh, clean, read_mbulk_len-append c.querybuf ys rest (suc n) line)
      (after_loop-resumed c c' ys rest (suc n) _ _ c.bulklen [] open_c (ap (answer_of c) e) room
        left)

-- Where processMultibulkBuffer waits for more bytes and the client is not to be closed, and the bytes
-- that come leave the buffer no longer than REDIS_INLINE_MAX_SIZE, it does with them what it does with
-- all the bytes at once.
pub process_multibulk_buffer-resumed :
    (c c' : Client) (ys : List ℕ)
    → process_multibulk_buffer c ≡ some (false, c')
    → c'.closing ≡ false
    → length (c.querybuf ++ ys) ≤ redis_inline_max_size
    → process_multibulk_buffer (with_bytes ys c') ≡ process_multibulk_buffer (with_bytes ys c)
unfolding process_multibulk_buffer answer_of
process_multibulk_buffer-resumed c c' ys e open_c short =
    let room = longer redis_inline_max_size (length (c.querybuf ++ ys)) short in
    elim (Bool-cases (c.multibulklen == 0)) [
      | inr within ↦
          rw (within, process_multibulk_buffer)
            (after_loop-resumed c c' ys c.querybuf c.multibulklen _ _ c.bulklen c.argv open_c
              (ap (answer_of c) (rw within at e)) room room)
      | inl fresh ↦ elim (Bool-cases (is_nil c.argv)) [
        | inr old ↦ cc (rw (fresh, old) at e)
        | inl clean ↦
            after_mbulk_line-resumed c c' ys (read_mbulk_len c.querybuf) refl fresh clean
              (rw (fresh, clean) at e) open_c room
      ]
    ]
