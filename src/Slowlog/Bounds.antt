-- ===== src/Slowlog/Bounds.antt =====
-- slowlog.c: how long the log, an entry and a logged argument can get.
use commit_redis.Prelude.{
  ℕ, zero, suc, ◌+◌, ◌-◌, ◌≤◌, ◌<◌, ◌≡◌, refl, ap, true, false, some, List, [], ◌∷◌, inl, inr, ltb,
  length, take, min, arith, Bool-cases, ltb→lt, if◌then◌else◌,
}
use commit_redis.Prelude.Int.{ℤ, pos, ltb_ℤ}
use commit_redis.Slowlog.Defs.{
  Robj, Slowlog, Texts, log_args, slowlog_create_entry, drop_last, trim_log, slowlog_push, trim_to,
  slowlog_entry_max_argc,
}

lt_32 : (n : ℕ) → ltb 32 n ≡ true → 32 ≤ n
lt_32 n e = ground arith

not_lt : (m n : ℕ) → ltb m n ≡ false → n ≤ m
not_lt m n e = ground arith

module _ {ℓ} {A : Type ℓ} where
  length-drop_last : (xs : List A) → length (drop_last xs) ≡ length xs - 1
  unfolding drop_last
  length-drop_last [] = refl
  length-drop_last (x ∷ []) = refl
  length-drop_last (x ∷ y ∷ r) = omega (arith, length-drop_last (y ∷ r))

  take-drop_last : (n : ℕ) (xs : List A) → n < length xs → take n (drop_last xs) ≡ take n xs
  unfolding drop_last
  take-drop_last n [] h = refl
  take-drop_last zero (x ∷ []) h = refl
  take-drop_last (suc n) (x ∷ []) h = absurd (omega arith)
  take-drop_last zero (x ∷ y ∷ r) h = refl
  take-drop_last (suc n) (x ∷ y ∷ r) h = ap (λ t. x ∷ t) (take-drop_last n (y ∷ r) (omega arith))

  take_all : (n : ℕ) (xs : List A) → length xs ≤ n → take n xs ≡ xs
  take_all zero [] h = refl
  take_all (suc n) [] h = refl
  take_all zero (x ∷ r) h = absurd (omega arith)
  take_all (suc n) (x ∷ r) h = ap (λ t. x ∷ t) (take_all n r (omega arith))

  pub trim_log_lem :
      (fuel n : ℕ) (xs : List A) → length xs ≤ fuel → trim_log fuel n xs ≡ some (take n xs)
  unfolding trim_log
  trim_log_lem zero n [] h = rw (take_all n [] (omega arith)) ground arith
  trim_log_lem zero n (x ∷ r) h = absurd (omega arith)
  trim_log_lem (suc fuel) n xs h = elim (Bool-cases (ltb n (length xs))) [
    | inl e ↦
        rw
          (
            e,
            trim_log_lem fuel n (drop_last xs) (omega (arith, length-drop_last xs, ltb→lt n _ e)),
            take-drop_last n xs (ltb→lt n _ e),
          )
          refl
    | inr e ↦ rw (e, take_all n xs (not_lt n _ e)) refl
  ]

length-log_args :
    (texts : Texts) (left slargc argc : ℕ) (args : List Robj)
    → left ≤ length args
    → length (log_args texts left slargc argc args) ≡ left
unfolding log_args
length-log_args texts zero slargc argc args h = refl
length-log_args texts (suc left) slargc argc [] h = absurd (omega arith)
length-log_args texts (suc left) slargc argc (o ∷ rest) h =
    ap suc (length-log_args texts left slargc argc rest (omega arith))

-- An entry keeps one object for each argument of the command, and 32 at most.
pub length-slowlog_create_entry :
    (texts : Texts) (argv : List Robj) (duration : ℤ) (now id : ℕ)
    → length (slowlog_create_entry texts argv duration now id).argv ≡ min 32 (length argv)
unfolding slowlog_create_entry
length-slowlog_create_entry texts argv duration now id =
    elim (Bool-cases (ltb slowlog_entry_max_argc (length argv))) [
      | inl e ↦
          rw (e, length-log_args texts 32 32 (length argv) argv (lt_32 _ e))
            (omega (arith, lt_32 _ e))
      | inr e ↦
          rw (e, length-log_args texts (length argv) (length argv) (length argv) argv (omega arith))
            (omega (arith, not_lt 32 _ e))
    ]

pub trim_to_lem :
    (bound : ℕ) (s : Slowlog) → trim_to bound s ≡ some (record s { log = take bound s.log })
unfolding trim_to
trim_to_lem bound s = rw (trim_log_lem (length s.log) bound s.log (omega arith), trim_to) refl

-- Whatever is pushed, a log that is not disabled ends as the newest `max_len` entries, the new one
-- among them where the command was slow; the identifier is then used up. A disabled log stays.
pub slowlog_push_lem :
    (texts : Texts) (s : Slowlog) (argv : List Robj) (duration : ℤ) (now : ℕ)
    → slowlog_push texts s argv duration now
      ≡ some (
          if ltb_ℤ s.log_slower_than (pos 0)
          then s
          else if ltb_ℤ duration s.log_slower_than
          then record s { log = take s.max_len s.log }
          else record s {
            log = take s.max_len (slowlog_create_entry texts argv duration now s.entry_id ∷ s.log);
            entry_id = s.entry_id + 1;
          })
unfolding slowlog_push
slowlog_push_lem texts s argv duration now = elim (Bool-cases (ltb_ℤ s.log_slower_than (pos 0))) [
  | inl e ↦ rw e refl
  | inr e ↦ elim (Bool-cases (ltb_ℤ duration s.log_slower_than)) [
    | inl fast ↦ rw (e, fast) (trim_to_lem s.max_len s)
    | inr slow ↦
        rw (e, slow)
          (trim_to_lem s.max_len (record s {
            log = slowlog_create_entry texts argv duration now s.entry_id ∷ s.log;
            entry_id = s.entry_id + 1;
          }))
  ]
]
