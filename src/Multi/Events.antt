-- ===== src/Multi/Events.antt =====
-- multi.c: what may come between the touch of a watched key and the EXEC of the client.
use commit_redis.Prelude.{
  ℕ, ◌+◌, ◌≡◌, Bool, true, false, not, ◌&&◌, ◌||◌, Bool-cases, inl, inr, Option, some, List, [],
  ◌∷◌, ◌++◌, ◌==◌, if◌then◌else◌, set, length,
}
use commit_redis.Objects.{Text}
use commit_redis.Multi.Defs.{
  WatchedKey, no_multi, exec_abort, multi_bulk_len, null_multi_bulk, Server, set_client, add_reply,
  queue_multi_command, flag_transaction, watch_command, unwatch_command, unwatch_all_keys,
  touch_watched_key, touch_watched_keys_on_flush, multi_command, discard_command, exec_command,
  exec_loop, exec_command_propagate_multi, discard_transaction,
}
use commit_redis.Multi.Watch.{unwatch_all_keys_lem}
use commit_redis.Multi.Doomed.{
  IsDoomed, cleared, set_client-IsDoomed, own_flags, touch-IsDoomed, flush-IsDoomed,
  watch_command-IsDoomed, left_alone, add_reply-IsDoomed, discard_transaction_lem, discard-IsDoomed,
  unwatch-IsDoomed, begin-IsDoomed, fail-IsDoomed,
}

module _ {D C : Type 0} where
  -- What a command that a client runs may do: it touches keys, flushes databases, changes the data, and
  -- selects a database for the client.
  pub data Change (d : ℕ) (s : Server D C) : Server D C → Type 0 where
    touch : (wk : WatchedKey) → Change d s (touch_watched_key s wk)
    flush :
        (present : WatchedKey → Bool) (dbid : Option ℕ)
        → Change d s (touch_watched_keys_on_flush present dbid s)
    work : (x : D) → Change d s (record s { outside = x })
    select : (db : ℕ) → Change d s (set_client s d (record (s.client d) { db = db }))

  pub data Changes (d : ℕ) (s : Server D C) : Server D C → Type 0 where
    done : Changes d s s
    more : {t u : Server D C} → Changes d s t → Change d t u → Changes d s u

  -- What may happen before the EXEC of client `c`: a command makes a change; any client queues a
  -- command, has an error, or sends WATCH or MULTI; and another client sends DISCARD, UNWATCH or EXEC,
  -- whose commands make changes, or is freed.
  pub data Event (c : ℕ) (s : Server D C) : Server D C → Type 0 where
    change : (d : ℕ) {s' : Server D C} → Change d s s' → Event c s s'
    queue : (d : ℕ) (cmd : C) → Event c s (queue_multi_command s d cmd)
    fail : (d : ℕ) → Event c s (flag_transaction s d)
    watch : (d : ℕ) (keys : List Text) → Event c s (watch_command s d keys)
    begin : (d : ℕ) → Event c s (multi_command s d)
    discard :
        (d : ℕ) {s' : Server D C} → (d == c) ≡ false → discard_command s d ≡ some s' → Event c s s'
    unwatch :
        (d : ℕ) {s' : Server D C} → (d == c) ≡ false → unwatch_command s d ≡ some s' → Event c s s'
    exec :
        (d : ℕ) (read_only : C → Bool) (call : Server D C → ℕ → C → Server D C × C)
        {s' : Server D C}
        → (d == c) ≡ false
        → ((u : Server D C) (cmd : C) → Changes d u (call u d cmd).0)
        → exec_command read_only call s d ≡ some s'
        → Event c s s'
    free :
        (d : ℕ) {s' : Server D C} → (d == c) ≡ false → unwatch_all_keys s d ≡ some s' → Event c s s'

  pub data Events (c : ℕ) (s : Server D C) : Server D C → Type 0 where
    here : Events c s s
    next : {t u : Server D C} → Events c s t → Event c t u → Events c s u

  Change-IsDoomed : {c d : ℕ} {s t : Server D C} → Change d s t → IsDoomed c s → IsDoomed c t
  Change-IsDoomed {c} {d} {s} (touch wk) ok = touch-IsDoomed c s wk ok
  Change-IsDoomed {c} {d} {s} (flush present dbid) ok = flush-IsDoomed c present dbid s s.clients ok
  Change-IsDoomed {c} {d} {s} (work x) ok = record {
    consistent = ok.consistent;
    multi = ok.multi;
    dirty = ok.dirty;
  }
  Change-IsDoomed {c} {d} {s} (select db) ok =
      set_client-IsDoomed c d s (record (s.client d) { db = db }) ok (own_flags c d s ok)

  Changes-IsDoomed : {c d : ℕ} {s t : Server D C} → IsDoomed c s → Changes d s t → IsDoomed c t
  Changes-IsDoomed ok done = ok
  Changes-IsDoomed ok (more before e) = Change-IsDoomed e (Changes-IsDoomed ok before)

  propagate-IsDoomed :
      (c d : ℕ) (s : Server D C) (first : Bool)
      → IsDoomed c s
      → IsDoomed c (if first then exec_command_propagate_multi s d else s)
  propagate-IsDoomed c d s true ok = record {
    consistent = ok.consistent;
    multi = ok.multi;
    dirty = ok.dirty;
  }
  propagate-IsDoomed c d s false ok = ok

  exec_loop-IsDoomed :
      (c d : ℕ) (read_only : C → Bool) (call : Server D C → ℕ → C → Server D C × C)
      → ((u : Server D C) (cmd : C) → Changes d u (call u d cmd).0)
      → (s : Server D C) (j : ℕ) (cmds : List C) (must : Bool) → IsDoomed c s
      → IsDoomed c (exec_loop read_only call s d j cmds must).0
  unfolding exec_loop
  exec_loop-IsDoomed c d read_only call changes s j [] must ok = ok
  exec_loop-IsDoomed c d read_only call changes s j (cmd ∷ cmds) must ok =
      let first_write = not must && not (read_only cmd) in
      let s₁ = if first_write then exec_command_propagate_multi s d else s in
      let ok₁ = propagate-IsDoomed c d s first_write ok in
      let ok₂ = Changes-IsDoomed ok₁ (changes s₁ cmd) in
      let s₂ = (call s₁ d cmd).0 in
      let m = record (s₂.client d) { commands = set (s₂.client d).commands j (call s₁ d cmd).1 } in
      exec_loop-IsDoomed c d read_only call changes (set_client s₂ d m) (j + 1) cmds
        (must || first_write) (set_client-IsDoomed c d s₂ m ok₂ (own_flags c d s₂ ok₂))

  ended-IsDoomed :
      (c d : ℕ) (s s' : Server D C)
      → (d == c) ≡ false
      → IsDoomed c s
      → discard_transaction s d ≡ some s'
      → IsDoomed c s'
  ended-IsDoomed c d s s' differ ok e =
      let (s₁, runs, after) = discard_transaction_lem s d ok.consistent in
      let result : some s₁ ≡ some s' = rw runs at e in
      let same : s₁ ≡ s' = cc result in
      rw (← same) (
        left_alone c d (set_client s d (cleared (s.client d))) s₁ differ
          (set_client-IsDoomed c d s (cleared (s.client d)) ok (λ at. cc (at, differ))) after)

  counted-IsDoomed :
      (c : ℕ) (b : Bool) (s : Server D C)
      → IsDoomed c s
      → IsDoomed c (if b then record s { dirty = s.dirty + 1 } else s)
  counted-IsDoomed c true s ok = record {
    consistent = ok.consistent;
    multi = ok.multi;
    dirty = ok.dirty;
  }
  counted-IsDoomed c false s ok = ok

  freed-IsDoomed :
      (c d : ℕ) (s s' : Server D C)
      → (d == c) ≡ false
      → IsDoomed c s
      → unwatch_all_keys s d ≡ some s'
      → IsDoomed c s'
  freed-IsDoomed c d s s' differ ok e =
      let (s₁, runs, after) = unwatch_all_keys_lem s d ok.consistent in
      let result : some s₁ ≡ some s' = rw runs at e in
      let same : s₁ ≡ s' = cc result in rw (← same) (left_alone c d s s₁ differ ok after)

  run-IsDoomed :
      (c d : ℕ) (read_only : C → Bool) (call : Server D C → ℕ → C → Server D C × C)
      (s s' : Server D C)
      → (d == c) ≡ false
      → ((u : Server D C) (cmd : C) → Changes d u (call u d cmd).0)
      → IsDoomed c s
      → (s.client d).multi ≡ true
      → ((s.client d).dirty_cas || (s.client d).dirty_exec) ≡ false
      → exec_command read_only call s d ≡ some s'
      → IsDoomed c s'
  unfolding exec_command
  run-IsDoomed c d read_only call s s' differ changes ok open_one clean e =
      let (s₁, runs, after) = unwatch_all_keys_lem s d ok.consistent in
      let ok₁ = left_alone c d s s₁ differ ok after in
      let cmds = (s₁.client d).commands in
      let told = add_reply s₁ d (multi_bulk_len (length cmds)) in
      let ok₂ =
        exec_loop-IsDoomed c d read_only call changes told 0 cmds false
          (add_reply-IsDoomed c d s₁ (multi_bulk_len (length cmds)) ok₁) in
      let (s₂, must) = exec_loop read_only call told d 0 cmds false in
      let (s₃, ends, after₃) =
        discard_transaction_lem (exec_loop read_only call told d 0 cmds false).0 d ok₂.consistent in
      let ok₃ =
        ended-IsDoomed c d (exec_loop read_only call told d 0 cmds false).0 s₃ differ ok₂ ends in
      let result : some (if must then record s₃ { dirty = s₃.dirty + 1 } else s₃) ≡ some s' =
        rw (open_one, clean, runs, ends) at e in
      let same : (if must then record s₃ { dirty = s₃.dirty + 1 } else s₃) ≡ s' = cc result in
      rw (← same) (counted-IsDoomed c must s₃ ok₃)

  exec-IsDoomed :
      (c d : ℕ) (read_only : C → Bool) (call : Server D C → ℕ → C → Server D C × C)
      (s s' : Server D C)
      → (d == c) ≡ false
      → ((u : Server D C) (cmd : C) → Changes d u (call u d cmd).0)
      → IsDoomed c s
      → exec_command read_only call s d ≡ some s'
      → IsDoomed c s'
  unfolding exec_command
  exec-IsDoomed c d read_only call s s' differ changes ok e = elim (Bool-cases (s.client d).multi) [
    | inr shut ↦
        let result : some (add_reply s d no_multi) ≡ some s' = rw shut at e in
        let same : add_reply s d no_multi ≡ s' = cc result in
        rw (← same) (add_reply-IsDoomed c d s no_multi ok)
    | inl open_one ↦ elim (Bool-cases ((s.client d).dirty_cas || (s.client d).dirty_exec)) [
      | inl dirty ↦
          let r = if (s.client d).dirty_exec then exec_abort else null_multi_bulk in
          ended-IsDoomed c d (add_reply s d r) s' differ (add_reply-IsDoomed c d s r ok)
            (rw (open_one, dirty) at e)
      | inr clean ↦ run-IsDoomed c d read_only call s s' differ changes ok open_one clean e
    ]
  ]

  Event-IsDoomed : {c : ℕ} {s t : Server D C} → Event c s t → IsDoomed c s → IsDoomed c t
  Event-IsDoomed {c} {s} (change d e) ok = Change-IsDoomed e ok
  Event-IsDoomed {c} {s} (queue d cmd) ok =
      set_client-IsDoomed c d s
        (record (s.client d) { commands = (s.client d).commands ++ (cmd ∷ []) }) ok
        (own_flags c d s ok)
  Event-IsDoomed {c} {s} (fail d) ok = fail-IsDoomed c d s ok
  Event-IsDoomed {c} {s} (watch d keys) ok = watch_command-IsDoomed c d s keys ok
  Event-IsDoomed {c} {s} (begin d) ok = begin-IsDoomed c d s ok
  Event-IsDoomed {c} {s} (discard d {s'} differ e) ok = discard-IsDoomed c d s s' differ ok e
  Event-IsDoomed {c} {s} (unwatch d {s'} differ e) ok = unwatch-IsDoomed c d s s' differ ok e
  Event-IsDoomed {c} {s} (exec d read_only call {s'} differ changes e) ok =
      exec-IsDoomed c d read_only call s s' differ changes ok e
  Event-IsDoomed {c} {s} (free d {s'} differ e) ok = freed-IsDoomed c d s s' differ ok e

  pub Events-IsDoomed : {c : ℕ} {s t : Server D C} → IsDoomed c s → Events c s t → IsDoomed c t
  Events-IsDoomed ok here = ok
  Events-IsDoomed ok (next before e) = Event-IsDoomed e (Events-IsDoomed ok before)
