-- ===== src/Aof/Tests.antt =====
-- A command as the append only file keeps it.
use commit_redis.Prelude.{
  Option, Bool, false, ℕ, ◌≡◌, refl, true, false, none, some, List, [], ◌∷◌, ◌++◌, arith,
}
use commit_redis.Aof.Defs.{number_line, cat_len, cat_bulks, cat_append_only_generic_command}
use commit_redis.Util.Number.{ll2string, digits_loop}
use commit_redis.Protocol.Defs.{Client, process_multibulk_buffer}
use commit_redis.Aof.Load.{
  line_of, skip_spaces, digits_value, signed_value, read_arg, read_args, fmterr, readerr, failed,
  loaded, load_loop, load_append_only_file,
}
use commit_redis.Aof.Replay.{append_all, load_append_only_file-append_all}
use commit_redis.Aof.Read.{process_multibulk_buffer-cat_append_only_generic_command}

abbrev get : List ℕ
get = b'G' ∷ b'E' ∷ b'T' ∷ []

abbrev fresh : List ℕ → Client
fresh buf = record {
  querybuf = buf;
  reqtype = none;
  multibulklen = 0;
  bulklen = none;
  argv = [];
  errors = [];
  closing = false;
  blocked = false;
}

-- "*1\r\n$3\r\nGET\r\n"
get_request :
    cat_append_only_generic_command [] (get ∷ [])
    ≡ some (
        (b'*' ∷ b'1' ∷ b'\r' ∷ b'\n' ∷ b'$' ∷ b'3' ∷ b'\r' ∷ b'\n' ∷ [])
        ++ (get ++ (b'\r' ∷ b'\n' ∷ [])))
unfolding cat_append_only_generic_command cat_len cat_bulks number_line ll2string digits_loop
get_request = refl

process_multibulk_buffer-cat_append_only_generic_command_example :
    (request : List ℕ) × (cat_append_only_generic_command (b'x' ∷ []) (get ∷ (b'k' ∷ []) ∷ [])
      ≡ some ((b'x' ∷ []) ++ request))
    × (process_multibulk_buffer (fresh (request ++ (b'*' ∷ [])))
        ≡ some (true, record (fresh (b'*' ∷ [])) { argv = get ∷ (b'k' ∷ []) ∷ [] }))
process_multibulk_buffer-cat_append_only_generic_command_example =
    process_multibulk_buffer-cat_append_only_generic_command (fresh []) get ((b'k' ∷ []) ∷ [])
      (b'x' ∷ []) (b'*' ∷ []) (omega arith, (omega arith, record {})) (omega arith) (omega arith)
      refl refl refl

abbrev key : List ℕ
key = b'k' ∷ []

abbrev get_bytes : List ℕ
get_bytes = (b'*' ∷ b'1' ∷ b'\r' ∷ b'\n' ∷ b'$' ∷ b'3' ∷ b'\r' ∷ b'\n' ∷ []) ++ get

-- The commands that were run, the newest first.
abbrev keep : List (List (List ℕ)) → List (List ℕ) → Option (List (List (List ℕ)))
keep x argv = some (argv ∷ x)

abbrev never : List (List (List ℕ)) → Bool
never x = false

-- A file whose last command is cut off.
cut_file : load_append_only_file keep never 3 [] (get_bytes ++ (b'\r' ∷ [])) ≡ some (failed fmterr)
unfolding load_loop read_args read_arg line_of skip_spaces signed_value digits_value
cut_file = refl

cut_line :
    load_append_only_file keep never 3 [] (b'*' ∷ b'2' ∷ b'\r' ∷ b'\n' ∷ []) ≡ some (failed readerr)
unfolding load_loop read_args read_arg line_of skip_spaces signed_value digits_value
cut_line = refl

load_append_only_file-append_all_example :
    (file : List ℕ) × (append_all ((get ∷ key ∷ []) ∷ (get ∷ []) ∷ []) [] ≡ some file)
    × (load_append_only_file keep never 3 [] file
        ≡ some (loaded ((get ∷ []) ∷ (get ∷ key ∷ []) ∷ [])))
load_append_only_file-append_all_example =
    load_append_only_file-append_all keep never (get ∷ key ∷ []) ((get ∷ []) ∷ []) 3 []
      ((omega arith, omega arith), ((omega arith, omega arith), record {})) (omega arith)
