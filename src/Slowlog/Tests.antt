-- ===== src/Slowlog/Tests.antt =====
-- Runs of the slow log, and its theorems at concrete inputs.
use commit_redis.Prelude.{◌++◌, ◌≡◌, refl, some, List, [], ◌∷◌, length, take, replicate}
use commit_redis.Prelude.Int.{pos}
use commit_redis.Slowlog.Defs.{
  Robj, Slowlog, Texts, create_string, logged_arg, log_args, slowlog_create_entry, slowlog_push,
}
use commit_redis.Slowlog.Bounds.{slowlog_push_lem}

abbrev texts : Texts
texts = record { more_arguments = λ n. n ∷ []; more_bytes = λ n. n ∷ [] }

abbrev get_a : List Robj
get_a = create_string (b'G' ∷ []) ∷ create_string (replicate 130 b'a') ∷ []

-- A server that logs commands of ten microseconds and keeps one.
abbrev one_entry : Slowlog
one_entry = record {
  log = slowlog_create_entry texts get_a (pos 20) 5 0 ∷ [];
  entry_id = 1;
  log_slower_than = pos 10;
  max_len = 1;
}

-- The long argument is cut at 128 bytes, with the number of bytes that are left out.
trimmed :
    logged_arg texts (create_string (replicate 130 b'a'))
    ≡ create_string (take 128 (replicate 130 b'a') ++ (2 ∷ []))
unfolding logged_arg
trimmed = refl

many : length (log_args texts 32 32 40 (replicate 40 (create_string []))) ≡ 32
unfolding log_args
many = refl

slowlog_push_example :
    slowlog_push texts one_entry get_a (pos 30) 9
    ≡ some (record one_entry {
      log = slowlog_create_entry texts get_a (pos 30) 9 1 ∷ [];
      entry_id = 2;
    })
slowlog_push_example = slowlog_push_lem texts one_entry get_a (pos 30) 9
