-- ===== src/Sds/Content.antt =====
-- What the functions of redis-2.6.12/src/sds.c make of the text of a string.
use mathlib.Core.List.{append_assoc, append-nil}
use commit_redis.Prelude.{
  ℕ, zero, suc, ◌+◌, ◌-◌, ◌≤◌, ◌<◌, ◌≡◌, refl, ap, sym, ◌∙◌, Bool-cases, inl, inr, some, List, [],
  ◌∷◌, ◌++◌, ltb, leb, length, length-append, arith, replicate, length-replicate,
}
use commit_redis.Sds.Defs.{Sdshdr, memcpy}
use commit_redis.Sds.Wide.{
  wide_make_room_for, wide_cat_len, wide_cpy_len, wide_copy_into, wide_grow_zero,
}
use commit_redis.Sds.Room.{Holds, memcpy_lem, split_at, wide_make_room_for_lem}

-- A text and the zero behind it, written into a buffer that has room for them.
write_text :
    (n : ℕ) (buf pre t spare : List ℕ)
    → n ≡ length pre
    → buf ≡ pre ++ spare
    → length t < length spare
    → (post : List ℕ) × (mid : List ℕ) × (memcpy n t buf ≡ some mid)
      × (memcpy (n + length t) (0 ∷ []) mid ≡ some ((pre ++ t) ++ (0 ∷ post)))
      × (length spare ≡ length t + suc (length post))
write_text n buf pre t spare at_end bytes h =
    let (old, x, post, parts, len) = split_at (length t) spare h in
    (
      post,
      pre ++ (t ++ (x ∷ post)),
      rw (at_end, bytes)
          (ap (λ l. memcpy (length pre) t (pre ++ l)) parts ∙ memcpy_lem pre t old (x ∷ post) len),
      ap (λ m. memcpy (m + length t) (0 ∷ []) (pre ++ (t ++ (x ∷ post)))) at_end
          ∙ ap (λ l. memcpy (length pre + length t) (0 ∷ []) l)
              (sym (append_assoc pre t (x ∷ post)))
          ∙ ap (λ m. memcpy m (0 ∷ []) ((pre ++ t) ++ (x ∷ post))) (sym (length-append pre t))
          ∙ memcpy_lem (pre ++ t) (0 ∷ []) (x ∷ []) post refl,
      omega (arith, ap length parts, len, length-append old (x ∷ post)),
    )

wide_copy_into_lem :
    (s : Sdshdr) (text t : List ℕ)
    → Holds s text
    → length t ≤ s.free + s.len
    → (s' : Sdshdr) × (wide_copy_into t s ≡ some s') × Holds s' t
unfolding wide_copy_into
wide_copy_into_lem s text t (spare, bytes, len, free) h =
    let all : length (text ++ (0 ∷ spare)) ≡ length text + suc (length spare) =
      length-append text (0 ∷ spare) in
    let (post, mid, first, second, rest) =
      write_text 0 s.buf [] t (text ++ (0 ∷ spare)) refl bytes (omega arith) in
    let start : 0 + length t ≡ length t = omega arith in
    (
      record { len = length t; free = s.free + s.len - length t; buf = t ++ (0 ∷ post) },
      rw (first, rw start at second) refl,
      (post, refl, refl, omega arith),
    )

replicate_last : (k : ℕ) (post : List ℕ) → replicate (k + 1) 0 ++ post ≡ replicate k 0 ++ (0 ∷ post)
replicate_last k post = let m : k + 1 ≡ suc k = omega arith in rw m (zeros_shift k)
  where
    zeros_shift : (k : ℕ) → 0 ∷ (replicate k 0 ++ post) ≡ replicate k 0 ++ (0 ∷ post)
    zeros_shift zero = refl
    zeros_shift (suc k) = ap (λ l. 0 ∷ l) (zeros_shift k)

-- Zeros behind a text, with one more for the end of it.
write_zeros :
    (n k : ℕ) (buf pre spare : List ℕ)
    → n ≡ length pre
    → buf ≡ pre ++ spare
    → k < length spare
    → (post : List ℕ) × (memcpy n (replicate (k + 1) 0) buf
        ≡ some ((pre ++ replicate k 0) ++ (0 ∷ post)))
      × (length spare ≡ k + suc (length post))
write_zeros n k buf pre spare at_end bytes h =
    let (old, x, post, parts, len) = split_at k spare h in
    (
      post,
      rw (at_end, bytes)
          (ap (λ l. memcpy (length pre) (replicate (k + 1) 0) (pre ++ l))
              (parts ∙ sym (append_assoc old (x ∷ []) post))
            ∙ memcpy_lem pre (replicate (k + 1) 0) (old ++ (x ∷ [])) post
                (omega (arith, len, length-append old (x ∷ []), length-replicate {A = ℕ} (k + 1) 0))
            ∙ ap (λ l. some (pre ++ l)) (replicate_last k post)
            ∙ ap some (sym (append_assoc pre (replicate k 0) (0 ∷ post)))),
      omega (arith, ap length parts, len, length-append old (x ∷ post)),
    )

module _ (fresh : ℕ → List ℕ) (length-fresh : (n : ℕ) → length (fresh n) ≡ n) where
  -- sdscatlen writes within the memory of the string, and leaves a string of the two texts behind one
  -- another.
  pub wide_cat_len_lem :
      (s : Sdshdr) (text t : List ℕ)
      → Holds s text
      → (s' : Sdshdr) × (wide_cat_len fresh s t ≡ some s') × Holds s' (text ++ t)
  unfolding wide_cat_len
  wide_cat_len_lem s text t holds =
      let ((spare, bytes, len, free), enough) =
        wide_make_room_for_lem fresh length-fresh s text (length t) holds in
      let at_end : s.len ≡ length text = holds.2 in
      let (post, mid, first, second, all) =
        write_text s.len _ text t (0 ∷ spare) at_end bytes (omega arith) in
      (
        record {
          len = s.len + length t;
          free = (wide_make_room_for fresh s (length t)).free - length t;
          buf = (text ++ t) ++ (0 ∷ post);
        },
        rw (first, second) refl,
        (post, refl, omega (arith, length-append text t), omega arith),
      )

  -- sdscpylen writes within the memory of the string, and leaves a string of the new text.
  pub wide_cpy_len_lem :
      (s : Sdshdr) (text t : List ℕ)
      → Holds s text
      → (s' : Sdshdr) × (wide_cpy_len fresh s t ≡ some s') × Holds s' t
  unfolding wide_cpy_len
  wide_cpy_len_lem s text t holds = elim (Bool-cases (ltb (s.free + s.len) (length t))) [
    | inl more ↦
        let (holds', enough) =
          wide_make_room_for_lem fresh length-fresh s text (length t - s.len) holds in
        rw more (wide_copy_into_lem _ text t holds' (omega (arith, holds.2, holds'.2)))
    | inr enough ↦ rw enough (wide_copy_into_lem s text t holds (ground arith))
  ]

  -- sdsgrowzero writes within the memory of the string, and leaves a string that is as long as asked at
  -- least, with zeros behind the text.
  pub wide_grow_zero_lem :
      (s : Sdshdr) (text : List ℕ) (len : ℕ)
      → Holds s text
      → (s' : Sdshdr) × (wide_grow_zero fresh s len ≡ some s')
        × Holds s' (text ++ replicate (len - length text) 0)
  unfolding wide_grow_zero
  wide_grow_zero_lem s text len holds = elim (Bool-cases (leb len s.len)) [
    | inl small ↦
        let none_more : len - length text ≡ 0 = ground (arith, holds.2) in
        rw (small, none_more, append-nil text, wide_grow_zero) (s, refl, holds)
    | inr more ↦
        let ((spare, bytes, len₁, free), enough) =
          wide_make_room_for_lem fresh length-fresh s text (len - s.len) holds in
        let (post, zeros, rest) =
          write_zeros s.len (len - s.len) _ text (0 ∷ spare) holds.2 bytes (omega arith) in
        let longer : s.len < len = ground arith in
        let same : len - length text ≡ len - s.len = omega (arith, holds.2) in
        rw (same, more, wide_grow_zero)
          (
            record {
              len = len;
              free =
                  (wide_make_room_for fresh s (len - s.len)).len
                  + (wide_make_room_for fresh s (len - s.len)).free
                  - len;
              buf = (text ++ replicate (len - s.len) 0) ++ (0 ∷ post);
            },
            rw zeros refl,
            (
              post,
              refl,
              omega (
                arith,
                holds.2,
                length-append text (replicate (len - s.len) 0),
                length-replicate {A = ℕ} (len - s.len) 0,
              ),
              omega (arith, holds.2),
            ),
          )
  ]
