-- ===== src/Sds/Wide.antt =====
-- The functions of redis-2.6.12/src/sds.c as they are where no size is too wide for an int.
use commit_redis.Prelude.{
  ℕ, ◌+◌, ◌-◌, ◌*◌, Option, some, List, [], ◌∷◌, ◌++◌, ◌>>=◌, ltb, leb, if◌then◌else◌, length,
  replicate,
}
use commit_redis.Sds.Defs.{Sdshdr, sds_max_prealloc, memcpy}

-- The part of sdscpylen that writes the bytes.
unfoldable pub wide_copy_into : List ℕ → Sdshdr → Option Sdshdr
wide_copy_into t s = do
  buf ← memcpy 0 t s.buf
  buf' ← memcpy (length t) (0 ∷ []) buf
  some (record { len = length t; free = s.free + s.len - length t; buf = buf' })

-- `fresh` is what stands in memory that zrealloc adds.
module _ (fresh : ℕ → List ℕ) where
  unfoldable pub wide_make_room_for : Sdshdr → ℕ → Sdshdr
  wide_make_room_for s addlen =
      let room : ℕ = s.len + addlen in
      let newlen : ℕ = if ltb room sds_max_prealloc then room * 2 else room + sds_max_prealloc in
      if leb addlen s.free then s else record {
        len = s.len;
        free = newlen - s.len;
        buf = s.buf ++ fresh (newlen + 1 - length s.buf);
      }

  unfoldable pub wide_cat_len : Sdshdr → List ℕ → Option Sdshdr
  wide_cat_len s t = do
    let s₁ = wide_make_room_for s (length t)
    buf ← memcpy s.len t s₁.buf
    buf' ← memcpy (s.len + length t) (0 ∷ []) buf
    some (record { len = s.len + length t; free = s₁.free - length t; buf = buf' })

  unfoldable pub wide_cpy_len : Sdshdr → List ℕ → Option Sdshdr
  wide_cpy_len s t =
      wide_copy_into t
        (if ltb (s.free + s.len) (length t) then wide_make_room_for s (length t - s.len) else s)

  unfoldable pub wide_grow_zero : Sdshdr → ℕ → Option Sdshdr
  wide_grow_zero s len = if leb len s.len then some s else do
    let s₁ = wide_make_room_for s (len - s.len)
    buf ← memcpy s.len (replicate (len - s.len + 1) 0) s₁.buf
    some (record { len = len; free = s₁.len + s₁.free - len; buf = buf })
