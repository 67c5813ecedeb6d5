-- ===== src/Rdb/Tests.antt =====
-- Runs of the encodings of rdb.c, and the theorems at concrete inputs.
use commit_redis.Prelude.{
  ℕ, ◌≡◌, refl, true, false, some, [], ◌∷◌, ◌==◌, length, arith, if◌then◌else◌,
}
use commit_redis.Prelude.Int.{negsuc}
use commit_redis.Rdb.Defs.{Writer, save_len, encode_integer}
use commit_redis.Rdb.Lengths.{IsSaved, load_len-save_len}
use commit_redis.Rdb.Integers.{IsEncoded, load_integer-encode_integer}

load_len-save_len_example : IsSaved 300 (b'R' ∷ [])
load_len-save_len_example = load_len-save_len 300 (b'R' ∷ []) (omega arith)

load_integer-encode_integer_example :
    IsEncoded (negsuc 299) (encode_integer (negsuc 299)) (b'R' ∷ [])
load_integer-encode_integer_example =
    load_integer-encode_integer (negsuc 299) (b'R' ∷ []) (omega arith)

-- A writer that fails on every write of four bytes.
abbrev no_four : Writer ℕ
no_four w bytes = ((if length bytes == 4 then false else true), w)

-- The failed write of a long length goes unseen.
unseen_failure : save_len no_four 0 100000 ≡ (some 5, 0)
unfolding save_len
unseen_failure = refl
