-- ===== src/Sds/Defs.antt =====
-- sdsnewlen, sdsclear, sdsMakeRoomFor, sdscatlen, sdscpylen and sdsgrowzero of
-- redis-2.6.12/src/sds.c. A size_t does not wrap, but an int does; an allocation does not fail.
use commit_redis.Prelude.{
  ℕ, zero, suc, ◌+◌, ◌-◌, ◌*◌, ◌%◌, ◌^◌, Option, none, some, List, [], ◌∷◌, ◌++◌, ◌>>=◌, ltb, leb,
  if◌then◌else◌, length, replicate,
}

-- struct sdshdr, with all the bytes that were allocated for `buf`.
pub record Sdshdr : Type 0 where
  pub len : ℕ
  pub free : ℕ
  pub buf : List ℕ

abbrev pub sds_max_prealloc : ℕ
sds_max_prealloc = 1024 * 1024

-- memcpy of bytes into a buffer at an offset: `none` where they do not fit.
unfoldable pub memcpy : ℕ → List ℕ → List ℕ → Option (List ℕ)
memcpy zero [] buf = some buf
memcpy zero (b ∷ bs) [] = none
memcpy zero (b ∷ bs) (x ∷ buf) = do rest ← memcpy zero bs buf; some (b ∷ rest)
memcpy (suc i) bs [] = none
memcpy (suc i) bs (x ∷ buf) = do rest ← memcpy i bs buf; some (x ∷ rest)

-- An int keeps the low 32 bits of what is stored in it. The fields of a header are these bits.
abbrev pub int_bits : ℕ → ℕ
int_bits n = n % 2 ^ 32

-- A read of an int as a size_t, as in sdslen and sdsavail: a negative one is a large size.
abbrev pub as_size : ℕ → ℕ
as_size n = if ltb n (2 ^ 31) then n else n + (2 ^ 64 - 2 ^ 32)

-- sdsnewlen of bytes.
unfoldable pub sds_new_len : List ℕ → Sdshdr
sds_new_len init = record { len = int_bits (length init); free = 0; buf = init ++ (0 ∷ []) }

unfoldable pub sds_clear : Sdshdr → Option Sdshdr
sds_clear s = do
  buf ← memcpy 0 (0 ∷ []) s.buf
  some (record { len = 0; free = int_bits (s.free + s.len); buf = buf })

-- The part of sdscpylen that writes the bytes.
unfoldable pub copy_into : List ℕ → Sdshdr → Option Sdshdr
copy_into t s = do
  buf ← memcpy 0 t s.buf
  buf' ← memcpy (length t) (0 ∷ []) buf
  some (record {
    len = int_bits (length t);
    free = int_bits (as_size (int_bits (s.free + s.len)) + 2 ^ 64 - length t);
    buf = buf';
  })

-- `fresh` is what stands in memory that zrealloc adds.
module _ (fresh : ℕ → List ℕ) where
  unfoldable pub sds_make_room_for : Sdshdr → ℕ → Sdshdr
  sds_make_room_for s addlen =
      let room : ℕ = as_size s.len + addlen in
      let newlen : ℕ = if ltb room sds_max_prealloc then room * 2 else room + sds_max_prealloc in
      if leb addlen (as_size s.free) then s else record {
        len = s.len;
        free = int_bits (newlen - as_size s.len);
        buf = s.buf ++ fresh (newlen + 1 - length s.buf);
      }

  unfoldable pub sds_cat_len : Sdshdr → List ℕ → Option Sdshdr
  sds_cat_len s t = do
    let s₁ = sds_make_room_for s (length t)
    buf ← memcpy (as_size s.len) t s₁.buf
    buf' ← memcpy (as_size s.len + length t) (0 ∷ []) buf
    some (record {
      len = int_bits (as_size s.len + length t);
      free = int_bits (as_size s₁.free + 2 ^ 64 - length t);
      buf = buf';
    })

  unfoldable pub sds_cpy_len : Sdshdr → List ℕ → Option Sdshdr
  sds_cpy_len s t = copy_into t (
      if ltb (as_size (int_bits (s.free + s.len))) (length t)
      then sds_make_room_for s (length t - as_size s.len)
      else s)

  unfoldable pub sds_grow_zero : Sdshdr → ℕ → Option Sdshdr
  sds_grow_zero s len = if leb len (as_size s.len) then some s else do
    let s₁ = sds_make_room_for s (len - as_size s.len)
    buf ← memcpy (as_size s.len) (replicate (len - as_size s.len + 1) 0) s₁.buf
    some (record {
      len = int_bits len;
      free = int_bits (as_size (int_bits (s₁.len + s₁.free)) + 2 ^ 64 - len);
      buf = buf;
    })
