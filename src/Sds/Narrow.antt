-- ===== src/Sds/Narrow.antt =====
-- Where no size is too wide for an int, the functions of redis-2.6.12/src/sds.c keep all of it.
use commit_redis.Prelude.{
  ℕ, ◌+◌, ◌-◌, ◌*◌, ◌^◌, ◌≤◌, ◌<◌, ◌≡◌, refl, ap, ◌∙◌, true, Bool-cases, inl, inr, List, ltb, leb,
  if◌then◌else◌, length, arith,
}
use commit_redis.Sds.Defs.{
  Sdshdr, sds_max_prealloc, int_bits, as_size, sds_make_room_for, sds_cat_len, sds_cpy_len,
  copy_into, sds_grow_zero,
}
use commit_redis.Sds.Wide.{
  wide_make_room_for, wide_cat_len, wide_cpy_len, wide_copy_into, wide_grow_zero,
}

size_kept : (n : ℕ) → n < 2 ^ 31 → as_size n ≡ n
size_kept n less = let low : ltb n (2 ^ 31) ≡ true = ground arith in rw low refl

bits_kept : (n : ℕ) → n < 2 ^ 31 → int_bits n ≡ n
bits_kept n less = ground arith

left_kept : (n m : ℕ) → m ≤ n → n < 2 ^ 31 → int_bits (n + 2 ^ 64 - m) ≡ n - m
left_kept n m le less = ground arith

module _ (fresh : ℕ → List ℕ) where
  pub make_room_kept :
      (s : Sdshdr) (addlen : ℕ)
      → s.len + s.free < 2 ^ 31
      → s.len + addlen + 2 ^ 20 < 2 ^ 31
      → sds_make_room_for fresh s addlen ≡ wide_make_room_for fresh s addlen
  unfolding sds_make_room_for wide_make_room_for
  make_room_kept s addlen fits room =
      rw
        (
          size_kept s.len (omega (arith, fits)),
          size_kept s.free (omega (arith, fits)),
          bits_kept
              ((if ltb (s.len + addlen) sds_max_prealloc
                  then (s.len + addlen) * 2
                  else s.len + addlen + sds_max_prealloc)
                - s.len)
              (ground arith),
        )
        refl

  -- The sizes after a string was made longer.
  pub wide_sizes :
      (s : Sdshdr) (addlen : ℕ)
      → s.len + s.free < 2 ^ 31
      → s.len + addlen + 2 ^ 20 < 2 ^ 31
      → ((wide_make_room_for fresh s addlen).len ≡ s.len)
        × (s.len + (wide_make_room_for fresh s addlen).free < 2 ^ 31)
        × (addlen ≤ (wide_make_room_for fresh s addlen).free)
  unfolding wide_make_room_for
  wide_sizes s addlen fits room = elim (Bool-cases (leb addlen s.free)) [
    | inl enough ↦ rw (enough, wide_make_room_for) (refl, fits, ground arith)
    | inr more ↦ rw (more, wide_make_room_for) (refl, ground arith, ground arith)
  ]

  pub cat_kept :
      (s : Sdshdr) (t : List ℕ)
      → s.len + s.free < 2 ^ 31
      → s.len + length t + 2 ^ 20 < 2 ^ 31
      → sds_cat_len fresh s t ≡ wide_cat_len fresh s t
  unfolding sds_cat_len wide_cat_len
  cat_kept s t fits room =
      let (e, sizes, enough) = wide_sizes s (length t) fits room in
      rw
        (
          make_room_kept s (length t) fits room,
          size_kept s.len (omega (arith, fits)),
          bits_kept (s.len + length t) (omega (arith, room)),
          size_kept (wide_make_room_for fresh s (length t)).free (omega (arith, sizes)),
          left_kept (wide_make_room_for fresh s (length t)).free (length t) enough
              (omega (arith, sizes)),
        )
        refl

  copy_kept :
      (s : Sdshdr) (t : List ℕ)
      → s.free + s.len < 2 ^ 31
      → length t ≤ s.free + s.len
      → copy_into t s ≡ wide_copy_into t s
  unfolding copy_into wide_copy_into
  copy_kept s t fits le =
      rw
        (
          bits_kept (s.free + s.len) fits,
          size_kept (s.free + s.len) fits,
          bits_kept (length t) (omega (arith, fits, le)),
          left_kept (s.free + s.len) (length t) le fits,
        )
        refl

  pub cpy_kept :
      (s : Sdshdr) (t : List ℕ)
      → s.len + s.free < 2 ^ 31
      → length t + 2 ^ 20 < 2 ^ 31
      → sds_cpy_len fresh s t ≡ wide_cpy_len fresh s t
  unfolding sds_cpy_len wide_cpy_len
  cpy_kept s t fits room =
      let total : as_size (int_bits (s.free + s.len)) ≡ s.free + s.len =
        ap as_size (bits_kept (s.free + s.len) (omega (arith, fits)))
        ∙ size_kept (s.free + s.len) (omega (arith, fits)) in
      elim (Bool-cases (ltb (s.free + s.len) (length t))) [
        | inr enough ↦ rw (total, enough) (copy_kept s t (omega (arith, fits)) (ground arith))
        | inl more ↦
            let longer : s.free + s.len < length t = ground arith in
            let bound : s.len + (length t - s.len) + 2 ^ 20 < 2 ^ 31 =
              omega (arith, longer, room) in
            let (e, sizes, added) = wide_sizes s (length t - s.len) fits bound in
            rw
              (
                total,
                more,
                size_kept s.len (omega (arith, fits)),
                make_room_kept s (length t - s.len) fits bound,
              )
              (copy_kept (wide_make_room_for fresh s (length t - s.len)) t (omega (arith, e, sizes))
                (omega (arith, e, added, longer)))
      ]

  pub grow_kept :
      (s : Sdshdr) (len : ℕ)
      → s.len + s.free < 2 ^ 31
      → len + 2 ^ 20 < 2 ^ 31
      → sds_grow_zero fresh s len ≡ wide_grow_zero fresh s len
  unfolding sds_grow_zero wide_grow_zero
  grow_kept s len fits room = elim (Bool-cases (leb len s.len)) [
    | inl small ↦ rw (size_kept s.len (omega (arith, fits)), small) refl
    | inr more ↦
        let longer : s.len < len = ground arith in
        let bound : s.len + (len - s.len) + 2 ^ 20 < 2 ^ 31 = omega (arith, longer, room) in
        let (e, sizes, added) = wide_sizes s (len - s.len) fits bound in
        let w = wide_make_room_for fresh s (len - s.len) in
        let total : w.len + w.free < 2 ^ 31 = omega (arith, e, sizes) in
        rw
          (
            size_kept s.len (omega (arith, fits)),
            more,
            make_room_kept s (len - s.len) fits bound,
            bits_kept len (omega (arith, room)),
            bits_kept (w.len + w.free) total,
            size_kept (w.len + w.free) total,
            left_kept (w.len + w.free) len (omega (arith, e, added, longer)) total,
          )
          refl
  ]
