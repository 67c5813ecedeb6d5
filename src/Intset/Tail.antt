-- ===== src/Intset/Tail.antt =====
-- intsetMoveTail, and the array with one more value of its own width.
use commit_redis.Prelude.{
  ℕ, ◌+◌, ◌-◌, ◌*◌, ◌%◌, ◌^◌, ◌<◌, ◌≤◌, ◌≡◌, refl, ◌∙◌, ap, inl, inr, arith, Bool-cases,
  if◌then◌else◌, true, false, ltb, some,
}
use commit_redis.Prelude.Int.{ℤ}
use commit_redis.Memory.Signed.{InWidth}
use commit_redis.Intset.Defs.{
  Intset, missing, intset_get_at, value_encoding, width, get_encoded, set_encoded, intset_resize,
  intset_move_tail, intset_search, intset_add,
}
use commit_redis.Intset.Slots.{get-set_self, get-set_other, get-memmove_target, get-memmove_other}
use commit_redis.Intset.Search.{IsValid, IsAnswer}
use commit_redis.Intset.Splice.{Spliced, Spliced-sorted}
use commit_redis.Intset.Encoding.{IsEncoding, width_eq}

module _ (is : Intset) (ok : IsValid is) where
  bytes_fit : (n : ℕ) → n ≤ 2 ^ 28 → n * width is.encoding % 2 ^ 32 ≡ n * width is.encoding
  bytes_fit n le = rw (width_eq is.encoding ok.enc) (by_encoding ok.enc)
    where
      by_encoding : IsEncoding is.encoding → n * is.encoding % 2 ^ 32 ≡ n * is.encoding
      by_encoding (inl e) = rw e (omega arith)
      by_encoding (inr (inl e)) = rw e (omega arith)
      by_encoding (inr (inr e)) = rw e (omega arith)

  pub room_fits : (n : ℕ) → n ≤ 2 ^ 28 → n * is.encoding % 2 ^ 32 ≡ n * is.encoding
  room_fits n le = rw (width_eq is.encoding ok.enc) at (bytes_fit n le)

  move_up :
      (at j : ℕ)
      → at ≤ j
      → j < is.length
      → intset_get_at (intset_move_tail is at (at + 1)) (j + 1) ≡ intset_get_at is j
  unfolding intset_move_tail
  move_up at j le lt =
      let back : j + 1 - (at + 1) + at ≡ j = omega arith in
      rw (bytes_fit (is.length - at) (omega (arith, ok.small))) (
        get-memmove_target is.contents (at + 1) at (is.length - at) (j + 1) is.encoding
          (omega arith) (omega arith)
        ∙ ap (λ k. get_encoded is.contents k is.encoding) back)

  move_up_below :
      (at j : ℕ) → j < at → intset_get_at (intset_move_tail is at (at + 1)) j ≡ intset_get_at is j
  unfolding intset_move_tail
  move_up_below at j lt =
      rw (bytes_fit (is.length - at) (omega (arith, ok.small))) (
        get-memmove_other is.contents (at + 1) at (is.length - at) j is.encoding
          (inl (omega arith)))

  pub move_down :
      (at j : ℕ)
      → at ≤ j
      → j + 1 < is.length
      → intset_get_at (intset_move_tail is (at + 1) at) j ≡ intset_get_at is (j + 1)
  unfolding intset_move_tail
  move_down at j le lt =
      let on : j - at + (at + 1) ≡ j + 1 = omega arith in
      rw (bytes_fit (is.length - (at + 1)) (omega (arith, ok.small))) (
        get-memmove_target is.contents at (at + 1) (is.length - (at + 1)) j is.encoding
          (omega arith) (omega arith)
        ∙ ap (λ k. get_encoded is.contents k is.encoding) on)

  pub move_down_below :
      (at j : ℕ) → j < at → intset_get_at (intset_move_tail is (at + 1) at) j ≡ intset_get_at is j
  unfolding intset_move_tail
  move_down_below at j lt = rw (bytes_fit (is.length - (at + 1)) (omega (arith, ok.small))) (
      get-memmove_other is.contents at (at + 1) (is.length - (at + 1)) j is.encoding
        (inl (omega arith)))

  -- The array with a gap at `at`, and the value written there.
  abbrev opened : ℕ → Intset
  opened at = if ltb at is.length then intset_move_tail is at (at + 1) else is

  opened_below :
      (at j : ℕ) → j < at → get_encoded (opened at).contents j is.encoding ≡ intset_get_at is j
  opened_below at j lt = elim (Bool-cases (ltb at is.length)) [
    | inl e ↦ rw e (unfold intset_move_tail in move_up_below at j lt)
    | inr e ↦ rw e refl
  ]

  opened_above :
      (at j : ℕ)
      → at ≤ j
      → j < is.length
      → get_encoded (opened at).contents (j + 1) is.encoding ≡ intset_get_at is j
  opened_above at j le lt =
      let e : ltb at is.length ≡ true = ground arith in
      rw e (unfold intset_move_tail in move_up at j le lt)

  abbrev pub added : ℤ → ℕ → Intset
  added v at = record is {
    contents = set_encoded (opened at).contents at is.encoding v;
    length = (is.length + 1) % 2 ^ 32;
    alloc = (is.length + 1) * is.encoding % 2 ^ 32;
  }

  pub added-Spliced :
      (v : ℤ) (at : ℕ)
      → InWidth (width is.encoding) v
      → at ≤ is.length
      → Spliced is v at (added v at)
  added-Spliced v at fits le = record {
    inside = le;
    len = omega (arith, ok.small);
    new = get-set_self (opened at).contents at is.encoding v fits;
    below = λ j lt.
        get-set_other (opened at).contents at j is.encoding v (omega arith) ∙ opened_below at j lt;
    above = λ j ge lt.
        get-set_other (opened at).contents at (j + 1) is.encoding v (omega arith)
        ∙ opened_above at j ge lt;
  }

  pub added-IsValid :
      (v : ℤ) (at : ℕ)
      → InWidth (width is.encoding) v
      → is.length + 1 < 2 ^ 28
      → IsAnswer is v (missing at)
      → IsValid (added v at)
  added-IsValid v at fits more (le, before, after) = record {
    enc = ok.enc;
    small = omega arith;
    room =
        let e : (is.length + 1) % 2 ^ 32 ≡ is.length + 1 = omega arith in
        rw (e, room_fits (is.length + 1) (omega arith)) (omega arith);
    sorted = Spliced-sorted is v at (added v at) (added-Spliced v at fits le) ok before after;
  }

  pub add_runs :
      (v : ℤ) (at : ℕ)
      → ltb is.encoding (value_encoding v) ≡ false
      → intset_search is v ≡ some (missing at)
      → intset_add is v ≡ some (added v at, true)
  unfolding intset_add intset_resize intset_move_tail
  add_runs v at narrow e = elim (Bool-cases (ltb at is.length)) [
    | inl lt ↦ rw (narrow, e) (rw lt refl)
    | inr ge ↦ rw (narrow, e) (rw ge refl)
  ]
