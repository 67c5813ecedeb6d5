-- ===== src/Protocol/Rounds.antt =====
-- The loop of processInputBuffer of redis-2.6.12/src/networking.c comes to an end.
use commit_redis.Prelude.{
  ℕ, zero, suc, ◌<◌, ◌≡◌, refl, ap, ◌∙◌, Bool, true, false, Bool-cases, Option-cases, inl, inr,
  Option, none, some, List, [], ◌∷◌, if◌then◌else◌, length, arith, is_nil, ◌⊎◌,
}
use commit_redis.Protocol.Defs.{Client, process_multibulk_buffer}
use commit_redis.Protocol.Input.{
  process_inline_buffer, is_multibulk, input_loop, execute, after_request, reset_client,
}
use commit_redis.Protocol.Progress.{
  IsReady, Progress, process_multibulk_buffer-Progress, process_inline_buffer-Progress,
}

-- The client that processInputBuffer may be called for.
abbrev pub IsUsable : Client → Type 0
IsUsable c = IsReady c ⊎ (c.closing ≡ true)

is_multibulk-IsReady :
    (c : Client) → IsReady c → is_multibulk c ≡ true → IsReady (record c { reqtype = some true })
is_multibulk-IsReady c ready multi = (
  ready.0,
  λ same idle. elim (Option-cases c.reqtype) [
    | inl fresh ↦ rw (fresh, is_multibulk) at multi
    | inr (b, known_type) ↦
        ready.1 (known_type ∙ ap some (rw (known_type, is_multibulk) at multi)) idle
  ],
)

process_inline_buffer-IsReady :
    (c : Client) → IsReady c → IsReady (record c { reqtype = some false })
process_inline_buffer-IsReady c ready = (ready.0, λ same. cc)

parse-Progress :
    (c : Client)
    → IsReady c
    → is_nil c.querybuf ≡ false
    → Progress (length c.querybuf) (
        if is_multibulk c
        then process_multibulk_buffer (record c { reqtype = some (is_multibulk c) })
        else some (process_inline_buffer (record c { reqtype = some (is_multibulk c) })))
parse-Progress c ready full = elim (Bool-cases (is_multibulk c)) [
  | inl multi ↦ rw multi (
      process_multibulk_buffer-Progress (record c { reqtype = some true })
        (is_multibulk-IsReady c ready multi) refl)
  | inr inline ↦ rw inline (
      process_inline_buffer-Progress (record c { reqtype = some false })
        (process_inline_buffer-IsReady c ready) (not_empty c.querybuf full))
]
  where
    not_empty : (xs : List ℕ) → is_nil xs ≡ false → 0 < length xs
    not_empty [] h = cc
    not_empty (x ∷ xs) h = omega arith

IsUsable-IsReady : (c : Client) → IsUsable c → c.closing ≡ false → IsReady c
IsUsable-IsReady c (inl ready) e = ready
IsUsable-IsReady c (inr closed) e = cc

-- `run` is processCommand: it leaves the buffer alone, and where its answer is not REDIS_OK the client
-- is to be closed.
module _ {X : Type 0} (run : X → Client → X × Bool × Client)
    (keeps : (x : X) (c : Client) → (run x c).2.querybuf ≡ c.querybuf)
    (closes : (x : X) (c : Client) → (run x c).1 ≡ false → (run x c).2.closing ≡ true) where
  abbrev Returned : Option (X × Client) → Type 0
  Returned none = ⊥
  Returned (some (x, c)) = IsUsable c

  execute-Returned :
      (again : X → Client → Option (X × Client)) (m : ℕ) (x : X) (c : Client)
      → ((x : X) (c : Client) → IsUsable c → length c.querybuf < m → Returned (again x c))
      → length c.querybuf < m
      → Returned (execute run again x c)
  unfolding execute
  execute-Returned again m x c ih h = elim (Bool-cases (is_nil c.argv)) [
    | inl empty ↦
        rw (empty, Returned, execute) (ih x (reset_client c) (inl ((λ e. refl), λ e. cc)) h)
    | inr full ↦ elim (Bool-cases (run x c).1) [
      | inl ok ↦
          rw (full, ok, Returned, execute)
            (ih _ (reset_client (run x c).2) (inl ((λ e. refl), λ e. cc))
              (omega (arith, ap length (keeps x c))))
      | inr refused ↦
          rw (full, refused, Returned, execute)
            (ih _ (run x c).2 (inr (closes x c refused)) (omega (arith, ap length (keeps x c))))
    ]
  ]

  after_request-Returned :
      (again : X → Client → Option (X × Client)) (m : ℕ) (x : X) (r : Option (Bool × Client))
      → ((x : X) (c : Client) → IsUsable c → length c.querybuf < m → Returned (again x c))
      → Progress m r
      → Returned (after_request run again x r)
  after_request-Returned again m x none ih h = h
  after_request-Returned again m x (some (false, c)) ih h = inl h
  after_request-Returned again m x (some (true, c)) ih h = execute-Returned again m x c ih h

  choose :
      (b : Bool) (p q : Option (X × Client))
      → Returned p
      → (b ≡ false → Returned q)
      → Returned (if b then p else q)
  choose true p q h k = h
  choose false p q h k = k refl

  input_loop-Returned :
      (fuel : ℕ) (x : X) (c : Client)
      → IsUsable c
      → length c.querybuf < fuel
      → Returned (input_loop run fuel x c)
  unfolding input_loop
  input_loop-Returned zero x c usable h = absurd (omega arith)
  input_loop-Returned (suc fuel) x c usable h =
      let ih : (x : X) (c' : Client)
          → IsUsable c'
          → length c'.querybuf < length c.querybuf
          → Returned (input_loop run fuel x c') =
        λ x c' usable' less. input_loop-Returned fuel x c' usable' (omega arith) in
      choose (is_nil c.querybuf) _ _ usable (λ full. choose c.blocked _ _ usable (λ runs.
        choose c.closing _ _ usable (λ stays.
          after_request-Returned (input_loop run fuel) (length c.querybuf) x _ ih
            (parse-Progress c (IsUsable-IsReady c usable stays) full))))

  -- For a client that is to be closed, or that has no arguments where it waits for no bulk, with `*` in
  -- front of its buffer where a request in bulks is to start: whatever the bytes are, the loop of
  -- processInputBuffer comes to an end within as many rounds as the buffer has bytes, and one, without a
  -- failed assertion, and leaves such a client, where processCommand leaves the buffer alone and the
  -- client is to be closed if its answer is not REDIS_OK.
  pub input_loop_lem :
      (fuel : ℕ) (x : X) (c : Client)
      → IsUsable c
      → length c.querybuf < fuel
      → (x' : X) × (c' : Client) × (input_loop run fuel x c ≡ some (x', c')) × IsUsable c'
  input_loop_lem fuel x c usable h =
      answer (input_loop run fuel x c) refl (input_loop-Returned fuel x c usable h)
    where
      answer :
          (r : Option (X × Client))
          → input_loop run fuel x c ≡ r
          → Returned r
          → (x' : X) × (c' : Client) × (input_loop run fuel x c ≡ some (x', c')) × IsUsable c'
      answer none e returned = absurd returned
      answer (some (x', c')) e returned = (x', c', e, returned)
