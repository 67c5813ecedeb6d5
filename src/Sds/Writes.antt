-- ===== src/Sds/Writes.antt =====
-- Writes to a string of redis-2.6.12/src/sds.c that is short enough for an int.
use commit_redis.Prelude.{
  ℕ, ◌+◌, ◌-◌, ◌^◌, ◌<◌, ◌≡◌, some, List, ◌++◌, length, replicate, arith, ◌∙◌,
}
use commit_redis.Sds.Defs.{Sdshdr, sds_cat_len, sds_cpy_len, sds_grow_zero}
use commit_redis.Sds.Room.{Holds}
use commit_redis.Sds.Content.{wide_cat_len_lem, wide_cpy_len_lem, wide_grow_zero_lem}
use commit_redis.Sds.Narrow.{cat_kept, cpy_kept, grow_kept}

module _ (fresh : ℕ → List ℕ) (length-fresh : (n : ℕ) → length (fresh n) ≡ n) where
  -- A string that holds a text, whose `len` and `free` add up to less than 2 ^ 31; a second text, where
  -- both together are shorter than 2 ^ 31 - 2 ^ 20, and a length below that: sdscatlen leaves a string
  -- that holds the two texts behind one another, sdscpylen one that holds the second text, and
  -- sdsgrowzero one that is as long as asked, with zeros behind the text, or as long as it was. None of
  -- them writes outside the memory of the string, whatever zrealloc leaves in the bytes that it adds.
  pub sds_writes_lem :
      (s : Sdshdr) (text t : List ℕ) (len : ℕ)
      → Holds s text
      → s.len + s.free < 2 ^ 31
      → length text + length t + 2 ^ 20 < 2 ^ 31
      → len + 2 ^ 20 < 2 ^ 31
      → ((s' : Sdshdr) × (sds_cat_len fresh s t ≡ some s') × Holds s' (text ++ t))
        × ((s' : Sdshdr) × (sds_cpy_len fresh s t ≡ some s') × Holds s' t)
        × ((s' : Sdshdr) × (sds_grow_zero fresh s len ≡ some s')
            × Holds s' (text ++ replicate (len - length text) 0))
  sds_writes_lem s text t len holds fits room longest =
      let same : s.len ≡ length text = holds.2 in
      let (cat, cat_runs, cat_holds) = wide_cat_len_lem fresh length-fresh s text t holds in
      let (cpy, cpy_runs, cpy_holds) = wide_cpy_len_lem fresh length-fresh s text t holds in
      let (grown, grow_runs, grow_holds) = wide_grow_zero_lem fresh length-fresh s text len holds in
      (
        (cat, cat_kept fresh s t fits (omega (arith, same, room)) ∙ cat_runs, cat_holds),
        (cpy, cpy_kept fresh s t fits (omega (arith, room)) ∙ cpy_runs, cpy_holds),
        (grown, grow_kept fresh s len fits longest ∙ grow_runs, grow_holds),
      )
