-- ===== src/Protocol/Resume.antt =====
-- The loop of processMultibulkBuffer of redis-2.6.12/src/networking.c, over a request that comes in
-- parts.
use commit_redis.Prelude.{
  ℕ, zero, suc, ◌+◌, ◌≤◌, ◌≡◌, refl, ap, ◌∙◌, Bool, true, false, Bool-cases, Option-cases, inl, inr,
  Option, none, some, List, ◌++◌, ltb, if◌then◌else◌, length, length-append, length-drop, drop,
  arith,
}
use commit_redis.Protocol.Defs.{
  redis_inline_max_size, LineResult, known, more, too_long, bad, find_cr, read_bulk_len, LoopResult,
  done, paused, failed, read_bulk, after_line, bulk_loop,
}
use commit_redis.Protocol.Lines.{
  shorter, longer, take-append, drop-append, read_bulk_len-append, read_bulk_len-length,
}

read_bulk_len-total :
    (t t' : ℕ) (xs : List ℕ)
    → ltb redis_inline_max_size t ≡ false
    → ltb redis_inline_max_size t' ≡ false
    → read_bulk_len t xs ≡ read_bulk_len t' xs
unfolding read_bulk_len
read_bulk_len-total t t' xs h h' = elim (Option-cases (find_cr xs)) [
  | inl gone ↦ rw (gone, read_bulk_len) (rw (h, h') refl)
  | inr (i, there) ↦ rw (there, read_bulk_len) refl
]

-- The loop is the same for each length of the buffer that leaves room for a line.
abbrev IgnoresTotal : ℕ → Type 0
IgnoresTotal n =
    (t t' : ℕ) (argv : List (List ℕ)) (xs : List ℕ)
    → ltb redis_inline_max_size t ≡ false
    → ltb redis_inline_max_size t' ≡ false
    → ltb redis_inline_max_size (length xs) ≡ false
    → bulk_loop n t none argv xs ≡ bulk_loop n t' none argv xs

in_room :
    (m k : ℕ) → ltb redis_inline_max_size m ≡ false → k ≤ m → ltb redis_inline_max_size k ≡ false
in_room m k h le = ground arith

if_room :
    (b : Bool) (m k : ℕ)
    → ltb redis_inline_max_size m ≡ false
    → ltb redis_inline_max_size k ≡ false
    → ltb redis_inline_max_size (if b then m else k) ≡ false
if_room true m k h h' = h
if_room false m k h h' = h'

bulk_loop-total_bulk :
    (n ll t t' : ℕ) (argv : List (List ℕ)) (xs : List ℕ)
    → IgnoresTotal n
    → ltb redis_inline_max_size t ≡ false
    → ltb redis_inline_max_size t' ≡ false
    → ltb redis_inline_max_size (length xs) ≡ false
    → bulk_loop (suc n) t (some ll) argv xs ≡ bulk_loop (suc n) t' (some ll) argv xs
unfolding bulk_loop read_bulk
bulk_loop-total_bulk n ll t t' argv xs free h h' room =
    elim (Bool-cases (ltb (length xs) (ll + 2))) [
      | inl short ↦ rw short refl
      | inr whole ↦ rw whole (
          free _ _ _ _ (if_room _ 0 t refl h) (if_room _ 0 t' refl h')
            (in_room (length xs) _ room (rw (length-drop (ll + 2) xs) (omega arith))))
    ]

ignores_total : (n : ℕ) → IgnoresTotal n
unfolding bulk_loop
ignores_total zero t t' argv xs h h' room = refl
ignores_total (suc n) t t' argv xs h h' room =
    rw (read_bulk_len-total t t' xs h h')
      (after_line-total (ignores_total n) (read_bulk_len t' xs) refl)
  where
    after_line-total :
        IgnoresTotal n
        → (r : LineResult) → read_bulk_len t' xs ≡ r
        → after_line (λ t₀. bulk_loop n t₀ none) n t argv xs r
          ≡ after_line (λ t₀. bulk_loop n t₀ none) n t' argv xs r
    after_line-total free (known ll rest) e =
        let room' = in_room (length xs) (length rest) room (read_bulk_len-length t' xs rest ll e) in
        bulk_loop-total_bulk n ll _ _ argv rest free (if_room _ (length rest) t room' h)
          (if_room _ (length rest) t' room' h') room'
    after_line-total free more e = refl
    after_line-total free too_long e = refl
    after_line-total free (bad b) e = refl

-- With all lengths of the buffer short, a loop that waited for bytes goes on with them as one that had
-- them from the start.
abbrev Resumes : ℕ → Option ℕ → Type 0
Resumes n bl =
    (t t₁ t₂ : ℕ) (argv : List (List ℕ)) (xs ys : List ℕ) (n' : ℕ) (bl' : Option ℕ)
    (argv' : List (List ℕ)) (xs' : List ℕ)
    → bulk_loop n t bl argv xs ≡ paused n' bl' argv' xs'
    → ltb redis_inline_max_size t₁ ≡ false
    → ltb redis_inline_max_size t₂ ≡ false
    → ltb redis_inline_max_size (length (xs ++ ys)) ≡ false
    → bulk_loop n t₁ bl argv (xs ++ ys) ≡ bulk_loop (suc n') t₂ bl' argv' (xs' ++ ys)

bulk_loop-total :
    (n : ℕ) (bl : Option ℕ) (t t' : ℕ) (argv : List (List ℕ)) (xs : List ℕ)
    → ltb redis_inline_max_size t ≡ false
    → ltb redis_inline_max_size t' ≡ false
    → ltb redis_inline_max_size (length xs) ≡ false
    → bulk_loop n t bl argv xs ≡ bulk_loop n t' bl argv xs
unfolding bulk_loop
bulk_loop-total n none t t' argv xs h h' room = ignores_total n t t' argv xs h h' room
bulk_loop-total zero (some ll) t t' argv xs h h' room = refl
bulk_loop-total (suc n) (some ll) t t' argv xs h h' room =
    bulk_loop-total_bulk n ll t t' argv xs (ignores_total n) h h' room

-- The loop that goes on from a pause with the bytes `ys` behind.
go_on : ℕ → List ℕ → LoopResult → LoopResult
go_on t ys (done argv xs) = done argv xs
go_on t ys (paused n bl argv xs) = bulk_loop (suc n) t bl argv (xs ++ ys)
go_on t ys (failed e n argv xs) = failed e n argv xs

at_pause :
    (t₁ t₂ n n' : ℕ) (bl bl' : Option ℕ) (argv argv' : List (List ℕ)) (xs xs' ys : List ℕ)
    → paused n bl argv xs ≡ paused n' bl' argv' xs'
    → ltb redis_inline_max_size t₁ ≡ false
    → ltb redis_inline_max_size t₂ ≡ false
    → ltb redis_inline_max_size (length (xs ++ ys)) ≡ false
    → bulk_loop (suc n) t₁ bl argv (xs ++ ys) ≡ bulk_loop (suc n') t₂ bl' argv' (xs' ++ ys)
unfolding go_on
at_pause t₁ t₂ n n' bl bl' argv argv' xs xs' ys e h₁ h₂ room =
    bulk_loop-total (suc n) bl t₁ t₂ argv (xs ++ ys) h₁ h₂ room ∙ ap (go_on t₂ ys) e

bulk_loop-resumed_bulk : (n ll : ℕ) → Resumes n none → Resumes (suc n) (some ll)
unfolding bulk_loop read_bulk
bulk_loop-resumed_bulk n ll again t t₁ t₂ argv xs ys n' bl' argv' xs' e h₁ h₂ room =
    elim (Bool-cases (ltb (length xs) (ll + 2))) [
      | inl short ↦ at_pause t₁ t₂ _ _ _ _ _ _ xs _ ys (rw short at e) h₁ h₂ room
      | inr whole ↦
          let le = shorter (length xs) (ll + 2) whole in
          let le' = longer (length (xs ++ ys)) (ll + 2) (omega (arith, le, length-append xs ys)) in
          let left : ltb redis_inline_max_size (length (drop (ll + 2) xs ++ ys)) ≡ false =
            in_room (length (xs ++ ys)) _ room (
              omega (
                arith,
                length-append xs ys,
                length-append (drop (ll + 2) xs) ys,
                length-drop (ll + 2) xs,
              )) in
          rw (le', take-append ll xs ys (omega (arith, le)), drop-append (ll + 2) xs ys le)
            (again _ _ t₂ _ (drop (ll + 2) xs) ys n' bl' argv' xs' (rw whole at e)
              (if_room _ 0 t₁ refl h₁) h₂ left)
    ]

pub bulk_loop-resumed : (n : ℕ) (bl : Option ℕ) → Resumes n bl
unfolding bulk_loop
bulk_loop-resumed zero bl t t₁ t₂ argv xs ys n' bl' argv' xs' e h₁ h₂ room = cc
bulk_loop-resumed (suc n) (some ll) t t₁ t₂ argv xs ys n' bl' argv' xs' e h₁ h₂ room =
    bulk_loop-resumed_bulk n ll (bulk_loop-resumed n none) t t₁ t₂ argv xs ys n' bl' argv' xs' e h₁
      h₂ room
bulk_loop-resumed (suc n) none t t₁ t₂ argv xs ys n' bl' argv' xs' e h₁ h₂ room =
    after_line-resumed (bulk_loop-resumed n none) (read_bulk_len t xs) refl e
  where
    after_line-resumed :
        Resumes n none
        → (r : LineResult) → read_bulk_len t xs ≡ r
        → after_line (λ t₀. bulk_loop n t₀ none) n t argv xs r ≡ paused n' bl' argv' xs'
        → bulk_loop (suc n) t₁ none argv (xs ++ ys) ≡ bulk_loop (suc n') t₂ bl' argv' (xs' ++ ys)
    after_line-resumed again (known ll rest) line e' =
        let le = read_bulk_len-length t xs rest ll line in
        let left : ltb redis_inline_max_size (length (rest ++ ys)) ≡ false =
          in_room (length (xs ++ ys)) _ room
            (omega (arith, le, length-append xs ys, length-append rest ys)) in
        rw (read_bulk_len-append t t₁ xs ys rest ll line) (
          bulk_loop-resumed_bulk n ll again _ _ t₂ argv rest ys n' bl' argv' xs' e'
            (if_room _ (length (rest ++ ys)) t₁ left h₁) h₂ left)
    after_line-resumed again more line e' = at_pause t₁ t₂ _ _ _ _ _ _ xs _ ys e' h₁ h₂ room
    after_line-resumed again too_long line e' = cc
    after_line-resumed again (bad b) line e' = cc

-- A pause leaves a rest of the bytes.
abbrev Shortens : ℕ → Option ℕ → Type 0
Shortens n bl =
    (t : ℕ) (argv : List (List ℕ)) (xs : List ℕ) (n' : ℕ) (bl' : Option ℕ) (argv' : List (List ℕ))
    (xs' : List ℕ)
    → bulk_loop n t bl argv xs ≡ paused n' bl' argv' xs'
    → length xs' ≤ length xs

rest_of : LoopResult → List ℕ
rest_of (done argv xs) = xs
rest_of (paused n bl argv xs) = xs
rest_of (failed e n argv xs) = xs

rest_of-paused :
    (n n' : ℕ) (bl bl' : Option ℕ) (argv argv' : List (List ℕ)) (xs xs' : List ℕ)
    → paused n bl argv xs ≡ paused n' bl' argv' xs'
    → length xs' ≤ length xs
unfolding rest_of
rest_of-paused n n' bl bl' argv argv' xs xs' e = omega (arith, ap (λ r. length (rest_of r)) e)

bulk_loop-length_bulk : (n ll : ℕ) → Shortens n none → Shortens (suc n) (some ll)
unfolding bulk_loop read_bulk
bulk_loop-length_bulk n ll again t argv xs n' bl' argv' xs' e =
    elim (Bool-cases (ltb (length xs) (ll + 2))) [
      | inl short ↦ rest_of-paused _ _ _ _ _ _ xs _ (rw short at e)
      | inr whole ↦ omega (
        arith,
        length-drop (ll + 2) xs,
        again _ _ (drop (ll + 2) xs) n' bl' argv' xs' (rw whole at e),
      )
    ]

pub bulk_loop-length : (n : ℕ) (bl : Option ℕ) → Shortens n bl
unfolding bulk_loop
bulk_loop-length zero bl t argv xs n' bl' argv' xs' e = cc
bulk_loop-length (suc n) (some ll) t argv xs n' bl' argv' xs' e =
    bulk_loop-length_bulk n ll (bulk_loop-length n none) t argv xs n' bl' argv' xs' e
bulk_loop-length (suc n) none t argv xs n' bl' argv' xs' e =
    after_line-length (bulk_loop-length n none) (read_bulk_len t xs) refl e
  where
    after_line-length :
        Shortens n none
        → (r : LineResult) → read_bulk_len t xs ≡ r
        → after_line (λ t₀. bulk_loop n t₀ none) n t argv xs r ≡ paused n' bl' argv' xs'
        → length xs' ≤ length xs
    after_line-length again (known ll rest) line e' = omega (
      arith,
      read_bulk_len-length t xs rest ll line,
      bulk_loop-length_bulk n ll again _ argv rest n' bl' argv' xs' e',
    )
    after_line-length again more line e' = rest_of-paused _ _ _ _ _ _ xs _ e'
    after_line-length again too_long line e' = cc
    after_line-length again (bad b) line e' = cc
