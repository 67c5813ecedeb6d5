-- ===== src/Sds/Room.antt =====
-- The text that a string of redis-2.6.12/src/sds.c holds, and sdsMakeRoomFor.
use mathlib.Core.List.{append_assoc}
use commit_redis.Prelude.{
  ℕ, zero, suc, ◌+◌, ◌-◌, ◌*◌, ◌≤◌, ◌<◌, ◌≡◌, refl, ap, ◌∙◌, Bool-cases, inl, inr, some, List, [],
  ◌∷◌, ◌++◌, ltb, leb, if◌then◌else◌, length, length-append, arith,
}
use commit_redis.Sds.Defs.{Sdshdr, sds_max_prealloc, memcpy}
use commit_redis.Sds.Wide.{wide_make_room_for}

-- The text, the zero behind it and the free bytes are all of the buffer.
abbrev pub Holds : Sdshdr → List ℕ → Type 0
Holds s text =
    (spare : List ℕ) × (s.buf ≡ text ++ (0 ∷ spare))
    × (s.len ≡ length text)
    × (s.free ≡ length spare)

pub memcpy_lem :
    (pre t old post : List ℕ)
    → length old ≡ length t
    → memcpy (length pre) t (pre ++ (old ++ post)) ≡ some (pre ++ (t ++ post))
unfolding memcpy
memcpy_lem [] [] [] post h = refl
memcpy_lem [] [] (x ∷ old) post h = absurd (omega arith)
memcpy_lem [] (b ∷ t) [] post h = absurd (omega arith)
memcpy_lem [] (b ∷ t) (x ∷ old) post h = rw (memcpy_lem [] t old post (omega arith)) refl
memcpy_lem (x ∷ pre) t old post h = rw (memcpy_lem pre t old post h) refl

-- A list that is longer than `n`, as its first `n` elements, one more and the rest.
pub split_at :
    (n : ℕ) (xs : List ℕ)
    → n < length xs
    → (old : List ℕ) × (x : ℕ) × (post : List ℕ) × (xs ≡ old ++ (x ∷ post)) × (length old ≡ n)
split_at n [] h = absurd (omega arith)
split_at zero (x ∷ xs) h = ([], x, xs, refl, refl)
split_at (suc n) (x ∷ xs) h =
    let (old, y, post, e, len) = split_at n xs (omega arith) in
    (x ∷ old, y, post, ap (λ l. x ∷ l) e, omega arith)

module _ (fresh : ℕ → List ℕ) (length-fresh : (n : ℕ) → length (fresh n) ≡ n) where
  pub wide_make_room_for_lem :
      (s : Sdshdr) (text : List ℕ) (addlen : ℕ)
      → Holds s text
      → Holds (wide_make_room_for fresh s addlen) text
        × (addlen ≤ (wide_make_room_for fresh s addlen).free)
  unfolding wide_make_room_for
  wide_make_room_for_lem s text addlen (spare, bytes, len, free) =
      elim (Bool-cases (leb addlen s.free)) [
        | inl enough ↦ rw (enough, wide_make_room_for) ((spare, bytes, len, free), ground arith)
        | inr more ↦
            let room = s.len + addlen in
            let newlen : ℕ =
              if ltb room sds_max_prealloc then room * 2 else room + sds_max_prealloc in
            let big : s.len + addlen ≤ newlen = ground arith in
            let less : s.free < addlen = ground arith in
            rw (more, wide_make_room_for)
              (
                (
                  spare ++ fresh (newlen + 1 - length s.buf),
                  ap (λ l. l ++ fresh (newlen + 1 - length s.buf)) bytes
                      ∙ append_assoc text (0 ∷ spare) _,
                  len,
                  omega (
                    arith,
                    ap length bytes,
                    length-append text (0 ∷ spare),
                    length-append spare (fresh (newlen + 1 - length s.buf)),
                    length-fresh (newlen + 1 - length s.buf),
                  ),
                ),
                omega arith,
              )
      ]
