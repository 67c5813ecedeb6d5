-- ===== src/Slowlog/Defs.antt =====
-- The structures and the functions of redis-2.6.12/src/slowlog.c and slowlog.h.
use commit_redis.Prelude.{
  ℕ, zero, suc, ◌+◌, ◌-◌, Bool, ◌&&◌, not, Option, none, some, List, [], ◌∷◌, ◌++◌, ltb, ◌==◌,
  if◌then◌else◌, length, take,
}
use commit_redis.Prelude.Int.{ℤ, pos, negsuc, ltb_ℤ}

-- An object: `type`, `encoding`, and the bytes behind `ptr` of a raw string.
pub record Robj : Type 0 where
  pub kind : ℕ
  pub encoding : ℕ
  pub ptr : List ℕ

abbrev pub redis_string : ℕ
redis_string = 0

abbrev pub redis_encoding_raw : ℕ
redis_encoding_raw = 0

-- createObject(REDIS_STRING, s)
abbrev pub create_string : List ℕ → Robj
create_string s = record { kind = redis_string; encoding = redis_encoding_raw; ptr = s }

pub record SlowlogEntry : Type 0 where
  pub argv : List Robj
  pub id : ℕ
  pub duration : ℤ
  pub time : ℕ

-- The fields of the server that the slow log reads and writes; the newest entry is first.
pub record Slowlog : Type 0 where
  pub log : List SlowlogEntry
  pub entry_id : ℕ
  pub log_slower_than : ℤ
  pub max_len : ℕ

abbrev pub slowlog_entry_max_argc : ℕ
slowlog_entry_max_argc = 32

abbrev pub slowlog_entry_max_string : ℕ
slowlog_entry_max_string = 128

-- The two texts that sdscatprintf makes of a number.
pub record Texts : Type 0 where
  pub more_arguments : ℕ → List ℕ
  pub more_bytes : ℕ → List ℕ

-- The object that is logged for an argument.
unfoldable pub logged_arg : Texts → Robj → Robj
logged_arg texts o =
    if o.kind == redis_string
      && (o.encoding == redis_encoding_raw && ltb slowlog_entry_max_string (length o.ptr))
    then create_string (
        take slowlog_entry_max_string o.ptr
        ++ texts.more_bytes (length o.ptr - slowlog_entry_max_string))
    else o

-- The loop over `j`: `left` is `slargc - j`. Reads past the arguments do not occur.
unfoldable pub log_args : Texts → ℕ → ℕ → ℕ → List Robj → List Robj
log_args texts zero slargc argc args = []
log_args texts (suc left) slargc argc [] = []
log_args texts (suc left) slargc argc (o ∷ rest) =
    (if not (slargc == argc) && (left == 0)
      then create_string (texts.more_arguments (argc - slargc + 1))
      else logged_arg texts o)
    ∷ log_args texts left slargc argc rest

-- slowlogCreateEntry; `now` is what time(NULL) answers.
unfoldable pub slowlog_create_entry : Texts → List Robj → ℤ → ℕ → ℕ → SlowlogEntry
slowlog_create_entry texts argv duration now id =
    let argc = length argv in
    let slargc = if ltb slowlog_entry_max_argc argc then slowlog_entry_max_argc else argc in
    record {
      argv = log_args texts slargc slargc argc argv;
      id = id;
      duration = duration;
      time = now;
    }

-- slowlogInit
abbrev pub slowlog_init : Slowlog → Slowlog
slowlog_init s = record s { log = []; entry_id = 0 }

-- listDelNode(list, listLast(list))
unfoldable pub drop_last {ℓ} : {A : Type ℓ} → List A → List A
drop_last [] = []
drop_last (x ∷ []) = []
drop_last (x ∷ y ∷ r) = x ∷ drop_last (y ∷ r)

-- `while (listLength(log) > bound)`; `none` is a loop that does not end.
unfoldable pub trim_log {ℓ} : {A : Type ℓ} → ℕ → ℕ → List A → Option (List A)
trim_log zero bound xs = if ltb bound (length xs) then none else some xs
trim_log (suc fuel) bound xs =
    let rest = trim_log fuel bound (drop_last xs) in if ltb bound (length xs) then rest else some xs

-- The loop of slowlogPushEntryIfNeeded and of slowlogReset on the server's log.
unfoldable pub trim_to : ℕ → Slowlog → Option Slowlog
trim_to bound s = elim (trim_log (length s.log) bound s.log) [
  | none ↦ none
  | some log ↦ some (record s { log = log })
]

-- slowlogPushEntryIfNeeded
unfoldable pub slowlog_push : Texts → Slowlog → List Robj → ℤ → ℕ → Option Slowlog
slowlog_push texts s argv duration now =
    if ltb_ℤ s.log_slower_than (pos 0)
    then some s
    else trim_to s.max_len (
        if ltb_ℤ duration s.log_slower_than then s else record s {
          log = slowlog_create_entry texts argv duration now s.entry_id ∷ s.log;
          entry_id = s.entry_id + 1;
        })

-- slowlogReset
abbrev pub slowlog_reset : Slowlog → Option Slowlog
slowlog_reset s = trim_to 0 s

-- The loop of SLOWLOG GET: `count--` ends it at zero, so a negative count never does.
unfoldable pub get_entries : ℤ → List SlowlogEntry → List SlowlogEntry
get_entries count [] = []
get_entries (pos zero) (e ∷ r) = []
get_entries (pos (suc n)) (e ∷ r) = e ∷ get_entries (pos n) r
get_entries (negsuc n) (e ∷ r) = e ∷ get_entries (negsuc (suc n)) r

pub data SlowlogReply : Type 0 where
  reply_ok reply_bad_number reply_unknown : SlowlogReply
  reply_len : ℕ → SlowlogReply
  reply_entries : List SlowlogEntry → SlowlogReply

-- slowlogCommand: `is_word` is strcasecmp with a word, `get_long` is getLongFromObjectOrReply.
unfoldable pub slowlog_command :
    (List ℕ → List ℕ → Bool)
    → (Robj → Option ℤ)
    → Slowlog
    → List Robj
    → Option (Slowlog × SlowlogReply)
slowlog_command is_word get_long s (_ ∷ sub ∷ []) =
    if is_word sub.ptr (b'r' ∷ b'e' ∷ b's' ∷ b'e' ∷ b't' ∷ [])
    then elim (slowlog_reset s) [ none ↦ none | some s' ↦ some (s', reply_ok) ]
    else if is_word sub.ptr (b'l' ∷ b'e' ∷ b'n' ∷ [])
    then some (s, reply_len (length s.log))
    else if is_word sub.ptr (b'g' ∷ b'e' ∷ b't' ∷ [])
    then some (s, reply_entries (get_entries (pos 10) s.log))
    else some (s, reply_unknown)
slowlog_command is_word get_long s (_ ∷ sub ∷ count ∷ []) =
    if is_word sub.ptr (b'g' ∷ b'e' ∷ b't' ∷ [])
    then elim (get_long count) [
      | none ↦ some (s, reply_bad_number)
      | some n ↦ some (s, reply_entries (get_entries n s.log))
    ]
    else some (s, reply_unknown)
slowlog_command is_word get_long s _ = some (s, reply_unknown)
