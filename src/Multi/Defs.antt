-- ===== src/Multi/Defs.antt =====
-- The state and the functions of redis-2.6.12/src/multi.c. A client is a number, a watched key the
-- number of its database and its text; `none` is a failed assertion or the release of a NULL node.
-- `D` is the data that commands work on, `C` a queued command with its arguments.
use commit_redis.Prelude.{
  ℕ, ◌+◌, Bool, true, false, ◌&&◌, ◌||◌, not, Option, none, some, List, [], ◌∷◌, ◌++◌, ◌==◌,
  if◌then◌else◌, length, ◌>>=◌, set,
}
use commit_redis.Objects.{Text, same_text}
use commit_redis.Sides.Defs.{
  has, remove_first, at_client, at_key, clients_of, entry_of_clients, same_pair,
}

abbrev pub WatchedKey : Type 0
WatchedKey = ℕ × Text

abbrev pub same_key : WatchedKey → WatchedKey → Bool
same_key = same_pair same_text

-- The flags REDIS_MULTI, REDIS_DIRTY_CAS and REDIS_DIRTY_EXEC, the selected database and `mstate`.
pub record MultiClient (C : Type 0) : Type 0 where
  pub multi : Bool
  pub dirty_cas : Bool
  pub dirty_exec : Bool
  pub db : ℕ
  pub commands : List C

pub data MultiReply : Type 0 where
  reply_ok null_multi_bulk exec_abort nested_multi no_multi watch_inside_multi : MultiReply
  multi_bulk_len : ℕ → MultiReply

-- `watchers` is the dictionary `watched_keys` of each database, `watched` the list of each client.
-- The newest reply is first; `propagated` are the databases for which a MULTI was propagated.
pub record Server (D C : Type 0) : Type 0 where
  pub outside : D
  pub client : ℕ → MultiClient C
  pub clients : List ℕ
  pub watchers : WatchedKey → Option (List ℕ)
  pub watched : ℕ → List WatchedKey
  pub replies : List (ℕ × MultiReply)
  pub propagated : List ℕ
  pub dirty : ℕ

-- The inner loop of touchWatchedKeysOnFlush; `present` is dictFind in the database, and FLUSHALL has no
-- database.
unfoldable pub flushes_any : (WatchedKey → Bool) → Option ℕ → List WatchedKey → Bool
flushes_any present dbid [] = false
flushes_any present dbid ((db, key) ∷ rest) =
    (elim dbid [ none ↦ true | some d ↦ db == d ] && present (db, key))
    || flushes_any present dbid rest

module _ {D C : Type 0} where
  abbrev pub add_reply : Server D C → ℕ → MultiReply → Server D C
  add_reply s c r = record s { replies = (c, r) ∷ s.replies }

  abbrev pub set_client : Server D C → ℕ → MultiClient C → Server D C
  set_client s c m = record s { client = at_client s.client c m }

  -- queueMultiCommand
  abbrev pub queue_multi_command : Server D C → ℕ → C → Server D C
  queue_multi_command s c cmd =
      set_client s c (record (s.client c) { commands = (s.client c).commands ++ (cmd ∷ []) })

  -- flagTransaction
  abbrev pub flag_transaction : Server D C → ℕ → Server D C
  flag_transaction s c =
      if (s.client c).multi then set_client s c (record (s.client c) { dirty_exec = true }) else s

  -- watchForKey
  unfoldable pub watch_for_key : Server D C → ℕ → Text → Server D C
  watch_for_key s c key =
      let wk : WatchedKey = ((s.client c).db, key) in
      if has (same_key wk) (s.watched c) then s else record s {
        watchers = at_key same_key s.watchers wk (some (clients_of (s.watchers wk) ++ (c ∷ [])));
        watched = at_client s.watched c (s.watched c ++ (wk ∷ []));
      }

  -- One round of the loop of unwatchAllKeys.
  unfoldable pub unwatch_key : Server D C → ℕ → WatchedKey → Option (Server D C)
  unwatch_key s c wk = elim (s.watchers wk) [
    | none ↦ none
    | some clients ↦
        if has (λ x. c == x) clients
        then some (record s {
          watchers =
              at_key same_key s.watchers wk (entry_of_clients (remove_first (λ x. c == x) clients));
          watched = at_client s.watched c (remove_first (same_key wk) (s.watched c));
        })
        else none
  ]

  unfoldable pub unwatch_loop : Server D C → ℕ → List WatchedKey → Option (Server D C)
  unwatch_loop s c [] = some s
  unwatch_loop s c (wk ∷ rest) = do s' ← unwatch_key s c wk; unwatch_loop s' c rest

  -- unwatchAllKeys; an empty list leaves the loop with nothing done, as the early return does.
  abbrev pub unwatch_all_keys : Server D C → ℕ → Option (Server D C)
  unwatch_all_keys s c = unwatch_loop s c (s.watched c)

  -- `c->flags |= REDIS_DIRTY_CAS` for each client of a list.
  unfoldable pub mark_dirty : Server D C → List ℕ → Server D C
  mark_dirty s [] = s
  mark_dirty s (c ∷ cs) = mark_dirty (set_client s c (record (s.client c) { dirty_cas = true })) cs

  -- touchWatchedKey
  abbrev pub touch_watched_key : Server D C → WatchedKey → Server D C
  touch_watched_key s wk = mark_dirty s (clients_of (s.watchers wk))

  -- The outer loop of touchWatchedKeysOnFlush.
  unfoldable pub touch_on_flush : (WatchedKey → Bool) → Option ℕ → Server D C → List ℕ → Server D C
  touch_on_flush present dbid s [] = s
  touch_on_flush present dbid s (c ∷ cs) =
      touch_on_flush present dbid
        (if flushes_any present dbid (s.watched c)
          then set_client s c (record (s.client c) { dirty_cas = true })
          else s)
        cs

  abbrev pub touch_watched_keys_on_flush : (WatchedKey → Bool) → Option ℕ → Server D C → Server D C
  touch_watched_keys_on_flush present dbid s = touch_on_flush present dbid s s.clients

  -- discardTransaction
  unfoldable pub discard_transaction : Server D C → ℕ → Option (Server D C)
  discard_transaction s c =
      unwatch_all_keys
        (set_client s c (record (s.client c) {
          multi = false;
          dirty_cas = false;
          dirty_exec = false;
          commands = [];
        }))
        c

  -- multiCommand, discardCommand, watchCommand and unwatchCommand
  unfoldable pub multi_command : Server D C → ℕ → Server D C
  multi_command s c =
      if (s.client c).multi
      then add_reply s c nested_multi
      else add_reply (set_client s c (record (s.client c) { multi = true })) c reply_ok

  unfoldable pub discard_command : Server D C → ℕ → Option (Server D C)
  discard_command s c =
      if (s.client c).multi
      then (do s' ← discard_transaction s c; some (add_reply s' c reply_ok))
      else some (add_reply s c no_multi)

  unfoldable pub watch_keys : Server D C → ℕ → List Text → Server D C
  watch_keys s c [] = s
  watch_keys s c (key ∷ keys) = watch_keys (watch_for_key s c key) c keys

  unfoldable pub watch_command : Server D C → ℕ → List Text → Server D C
  watch_command s c keys =
      if (s.client c).multi
      then add_reply s c watch_inside_multi
      else add_reply (watch_keys s c keys) c reply_ok

  unfoldable pub unwatch_command : Server D C → ℕ → Option (Server D C)
  unwatch_command s c = do
    s' ← unwatch_all_keys s c
    some (add_reply (set_client s' c (record (s'.client c) { dirty_cas = false })) c reply_ok)

  -- execCommandPropagateMulti
  abbrev pub exec_command_propagate_multi : Server D C → ℕ → Server D C
  exec_command_propagate_multi s c = record s { propagated = (s.client c).db ∷ s.propagated }

  module _ (read_only : C → Bool) (call : Server D C → ℕ → C → Server D C × C) where
    -- The loop of execCommand; `call` runs a command, which may change its own arguments, and these
    -- are written back at `j`. The Boolean is `must_propagate`.
    unfoldable pub exec_loop : Server D C → ℕ → ℕ → List C → Bool → Server D C × Bool
    exec_loop s c j [] must_propagate = (s, must_propagate)
    exec_loop s c j (cmd ∷ cmds) must_propagate =
        let first_write = not must_propagate && not (read_only cmd) in
        let s₁ = if first_write then exec_command_propagate_multi s c else s in
        let (s₂, cmd') = call s₁ c cmd in
        let s₃ =
          set_client s₂ c (record (s₂.client c) { commands = set (s₂.client c).commands j cmd' }) in
        exec_loop s₃ c (j + 1) cmds (must_propagate || first_write)

    -- execCommand, less the copy that is sent to MONITOR clients.
    unfoldable pub exec_command : Server D C → ℕ → Option (Server D C)
    exec_command s c =
        if not (s.client c).multi
        then some (add_reply s c no_multi)
        else if (s.client c).dirty_cas || (s.client c).dirty_exec
        then discard_transaction
            (add_reply s c (if (s.client c).dirty_exec then exec_abort else null_multi_bulk)) c
        else (do
          s₁ ← unwatch_all_keys s c
          let cmds = (s₁.client c).commands
          let (s₂, must_propagate) =
              exec_loop (add_reply s₁ c (multi_bulk_len (length cmds))) c 0 cmds false
          s₃ ← discard_transaction s₂ c
          some (if must_propagate then record s₃ { dirty = s₃.dirty + 1 } else s₃))
