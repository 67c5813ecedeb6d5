-- ===== src/Aof/Replay.antt =====
-- loadAppendOnlyFile of redis-2.6.12/src/aof.c runs the commands that catAppendOnlyGenericCommand
-- wrote.
use mathlib.Core.List.{append_assoc, append-nil}
use commit_redis.Prelude.{
  leb, ◌≤◌, ℕ, zero, suc, ◌+◌, ◌^◌, ◌<◌, ◌≡◌, refl, ap, sym, ◌∙◌, true, false, Bool, Option, some,
  none, List, [], ◌∷◌, ◌++◌, ◌>>=◌, ltb, length, length-append, arith, drop, if◌then◌else◌,
}
use commit_redis.Prelude.Int.{pos}
use commit_redis.Aof.Defs.{sds_max, cat_bulks, cat_append_only_generic_command}
use commit_redis.Aof.Load.{
  line_of, strtol, readerr, refused, failed, load_append_only_file, got, read_arg, read_args,
  Loaded, loaded, load_command, run_command, load_loop,
}
use commit_redis.Aof.Lines.{take-length, drop-length}
use commit_redis.Aof.Numbers.{number_line-line_of}
use commit_redis.Aof.Read.{
  bulk_bytes, bulk_bytes-append, append-bulk_bytes, bulk_size, request_size, cat_len_lem,
  cat_bulks-step, length-step,
}
use commit_redis.Protocol.Lines.{longer}

-- The file that the commands are written to, each as a string of its own.
abbrev pub append_all : List (List (List ℕ)) → List ℕ → Option (List ℕ)
append_all [] file = some file
append_all (argv ∷ rest) file = do
  request ← cat_append_only_generic_command [] argv
  append_all rest (file ++ request)

read_args-bulk_bytes :
    (n : ℕ) (before : List (List ℕ)) (s arg tail : List ℕ)
    → ((ys : List ℕ)
        → line_of 127 (b'$' ∷ (s ++ (b'\r' ∷ b'\n' ∷ ys)))
          ≡ (b'$' ∷ (s ++ (b'\r' ∷ b'\n' ∷ [])), ys))
    → strtol (s ++ (b'\r' ∷ b'\n' ∷ [])) ≡ pos (length arg)
    → length arg < 2 ^ 31
    → read_args (suc n) before (bulk_bytes s arg tail) ≡ read_args n (before ++ (arg ∷ [])) tail
unfolding read_args read_arg
read_args-bulk_bytes n before s arg tail reads value fits =
    let small : leb (2 ^ 31) (length arg) ≡ false = ground arith in
    let back = b'\r' ∷ b'\n' ∷ tail in
    let all : length arg + 0 ≡ length arg = omega arith in
    let whole : drop (length arg) (arg ++ back) ≡ back = rw all at (drop-length arg back 0) in
    let room : ltb (length (arg ++ back)) (length arg) ≡ false =
      longer _ _ (omega (arith, length-append arg back)) in
    let room' : ltb (suc (suc (length tail))) 2 ≡ false = longer _ _ (omega arith) in
    rw (reads (arg ++ back), read_args)
      (rw (value, read_arg) (rw (small, room, whole, take-length arg back, room') refl))

-- The arguments that were written are read back.
cat_bulks-read_args :
    (argv : List (List ℕ))
    → bulk_size argv < sds_max
    → (bytes : List ℕ) × ((dst : List ℕ)
        → length dst + bulk_size argv < sds_max
        → cat_bulks dst argv ≡ some (dst ++ bytes))
      × ((before : List (List ℕ)) (rest : List ℕ)
          → read_args (length argv) before (bytes ++ rest) ≡ got (before ++ argv) rest)
unfolding cat_bulks read_args
cat_bulks-read_args [] short = (
  [],
  λ dst room. ap some (sym (append-nil dst)),
  λ before rest. ap (λ x. got x rest) (sym (append-nil before)),
)
cat_bulks-read_args (arg ∷ argv) small =
    let (s, prints, reads, value, digits) =
      number_line-line_of b'$' (length arg) refl (omega (arith, small)) in
    let (bytes, writes, loops) = cat_bulks-read_args argv (omega (arith, small)) in
    (
      bulk_bytes s arg bytes,
      λ dst room. cat_bulks-step dst s arg argv _ prints digits (omega (arith, room)) (
          writes _ (omega (arith, room, digits, length-step dst s arg))
          ∙ ap some (append-bulk_bytes dst s arg bytes)),
      λ before rest.
          ap (read_args (suc (length argv)) before) (bulk_bytes-append s arg bytes rest)
          ∙ read_args-bulk_bytes (length argv) before s arg (bytes ++ rest) reads value
              (omega (arith, small))
          ∙ loops (before ++ (arg ∷ [])) rest
          ∙ ap (λ x. got x rest) (append_assoc before (arg ∷ []) argv),
    )

-- A command with an argument at least, and not too long for a string.
abbrev pub IsCommand : List (List ℕ) → Type 0
IsCommand argv = (0 < length argv) × (request_size argv < sds_max)

abbrev pub AllCommands : List (List (List ℕ)) → Type 0
AllCommands [] = Unit
AllCommands (argv ∷ rest) = IsCommand argv × AllCommands rest

bulk_size-length : (argv : List (List ℕ)) → length argv ≤ bulk_size argv
bulk_size-length [] = omega arith
bulk_size-length (arg ∷ argv) = omega (arith, bulk_size-length argv)

module _ {X : Type 0} (run : X → List (List ℕ) → Option X) (in_multi : X → Bool) where
  load_command-args :
      (n fuel : ℕ) (x : X) (argv : List (List ℕ)) (bytes rest : List ℕ)
      → 0 < n
      → n < 2 ^ 31
      → read_args n [] bytes ≡ got argv rest
      → load_command run in_multi (load_loop run in_multi fuel) x (pos n) bytes
        ≡ run_command run in_multi (load_loop run in_multi fuel) x (got argv rest)
  load_command-args zero fuel x argv bytes rest h small e = absurd (omega arith)
  load_command-args (suc n) fuel x argv bytes rest h small e =
      let fits : ltb (suc n) (2 ^ 31) ≡ true = ground arith in rw (fits, e) refl

  load_loop-command :
      (argv : List (List ℕ))
      → IsCommand argv
      → (c : ℕ) × (bytes : List ℕ) × (cat_append_only_generic_command [] argv ≡ some (c ∷ bytes))
        × ((fuel : ℕ) (x : X) (rest : List ℕ)
            → load_loop run in_multi (suc fuel) x ((c ∷ bytes) ++ rest)
              ≡ run_command run in_multi (load_loop run in_multi fuel) x (got argv rest))
  unfolding cat_append_only_generic_command load_loop
  load_loop-command argv (some_arg, short) =
      let few : length argv < 2 ^ 31 = omega (arith, short, bulk_size-length argv) in
      let (s, prints, reads, value, digits) =
        number_line-line_of b'*' (length argv) refl (omega (arith, few)) in
      let (bytes, writes, loops) = cat_bulks-read_args argv (omega (arith, short)) in
      let line = b'*' ∷ (s ++ (b'\r' ∷ b'\n' ∷ [])) in
      let len : length line ≡ length s + 3 = omega (arith, length-append s (b'\r' ∷ b'\n' ∷ [])) in
      (
        b'*',
        s ++ (b'\r' ∷ b'\n' ∷ bytes),
        rw (prints, cat_len_lem [] line (omega (arith, len, digits, short)))
            (writes line (omega (arith, len, digits, short))
              ∙ ap (λ l. some (b'*' ∷ l)) (append_assoc s (b'\r' ∷ b'\n' ∷ []) bytes)),
        λ fuel x rest.
            rw (append_assoc s (b'\r' ∷ b'\n' ∷ bytes) rest, reads (bytes ++ rest))
              (rw value (
                load_command-args (length argv) fuel x argv (bytes ++ rest) rest some_arg few
                  (loops [] rest))),
      )

  abbrev pub run_all : X → List (List (List ℕ)) → Option X
  run_all x [] = some x
  run_all x (argv ∷ rest) = elim (run x argv) [ none ↦ none | some x' ↦ run_all x' rest ]

  -- What becomes of a load whose commands were run.
  abbrev pub outcome : Option X → Loaded X
  outcome none = failed refused
  outcome (some x) = if in_multi x then failed readerr else loaded x

  -- A command that was read, and then those that are behind it.
  load_loop-step :
      (argv : List (List ℕ)) (commands : List (List (List ℕ))) (bytes file : List ℕ)
      → ((fuel : ℕ) (x : X) (rest : List ℕ)
          → load_loop run in_multi (suc fuel) x (bytes ++ rest)
            ≡ run_command run in_multi (load_loop run in_multi fuel) x (got argv rest))
      → ((fuel : ℕ) (x : X)
          → length commands < fuel
          → load_loop run in_multi fuel x file ≡ outcome (run_all x commands))
      → (fuel : ℕ) (x : X) → suc (length commands) < fuel
      → load_loop run in_multi fuel x (bytes ++ file) ≡ outcome (run_all x (argv ∷ commands))
  load_loop-step argv commands bytes file reads loads zero x h = absurd (omega arith)
  load_loop-step argv commands bytes file reads loads (suc fuel) x h =
      reads fuel x file ∙ after_run (run x argv)
    where
      after_run :
          (r : Option X)
          → (elim r [ none ↦ failed refused | some x' ↦ load_loop run in_multi fuel x' file ])
            ≡ outcome (elim r [ none ↦ none | some x' ↦ run_all x' commands ])
      after_run none = refl
      after_run (some x') = loads fuel x' (omega arith)

  load_loop-append_all :
      (commands : List (List (List ℕ)))
      → AllCommands commands
      → (file : List ℕ) × ((dst : List ℕ) → append_all commands dst ≡ some (dst ++ file))
        × ((fuel : ℕ) (x : X)
            → length commands < fuel
            → load_loop run in_multi fuel x file ≡ outcome (run_all x commands))
  unfolding load_loop
  load_loop-append_all [] ok = ([], λ dst. ap some (sym (append-nil dst)), at_end)
    where
      at_end :
          (fuel : ℕ) (x : X) → 0 < fuel → load_loop run in_multi fuel x [] ≡ outcome (run_all x [])
      at_end zero x h = absurd (omega arith)
      at_end (suc fuel) x h = refl
  load_loop-append_all (argv ∷ commands) (ok, oks) =
      let (c, bytes, writes, reads) = load_loop-command argv ok in
      let (file, appends, loads) = load_loop-append_all commands oks in
      (
        (c ∷ bytes) ++ file,
        λ dst. rw writes (appends _ ∙ ap some (append_assoc dst (c ∷ bytes) file)),
        load_loop-step argv commands (c ∷ bytes) file reads loads,
      )

  -- For commands of one argument or more, each short enough for a string under 2 ^ 31 - 2 ^ 20 bytes, of
  -- which 40 for each argument and 40 more are counted for the lines with numbers, one command at least:
  -- loadAppendOnlyFile, over the file of what catAppendOnlyGenericCommand makes of each, runs them in
  -- order, each with the arguments it was written with. It ends with the state that they leave, except
  -- that a command that is refused stops it, and so does a transaction still open at the end. As many
  -- rounds as commands, and one, are enough.
  pub load_append_only_file-append_all :
      (argv : List (List ℕ)) (commands : List (List (List ℕ))) (fuel : ℕ) (x : X)
      → AllCommands (argv ∷ commands)
      → length (argv ∷ commands) < fuel
      → (file : List ℕ) × (append_all (argv ∷ commands) [] ≡ some file)
        × (load_append_only_file run in_multi fuel x file
            ≡ some (outcome (run_all x (argv ∷ commands))))
  load_append_only_file-append_all argv commands fuel x (ok, oks) enough =
      let (c, bytes, writes, reads) = load_loop-command argv ok in
      let (file, appends, loads) = load_loop-append_all commands oks in
      (
        (c ∷ bytes) ++ file,
        rw writes (appends (c ∷ bytes)),
        ap some (load_loop-step argv commands (c ∷ bytes) file reads loads fuel x enough),
      )
