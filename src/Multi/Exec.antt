-- ===== src/Multi/Exec.antt =====
-- multi.c: a transaction does not run once a key that it watches was touched.
use commit_redis.Prelude.{ℕ, ◌≡◌, refl, ◌∙◌, ap, Bool, true, some, [], ◌∷◌, if◌then◌else◌}
use commit_redis.Sides.Defs.{has}
use commit_redis.Sides.Agree.{eq_self}
use commit_redis.Multi.Defs.{
  WatchedKey, same_key, exec_abort, null_multi_bulk, Server, add_reply, touch_watched_key,
  exec_command,
}
use commit_redis.Multi.Watch.{IsConsistent}
use commit_redis.Multi.Doomed.{cleared, touched-IsDoomed, discard_transaction_lem}
use commit_redis.Multi.Events.{Events, Events-IsDoomed}

module _ {D C : Type 0} where
  -- What an EXEC that is refused leaves behind: no command ran and none was propagated, the client is
  -- out of its transaction and watches nothing, and its reply is the null bulk, or the error where a
  -- command could not be queued.
  pub record Refused (c : ℕ) (t t' : Server D C) : Type 0 where
    pub outside : t'.outside ≡ t.outside
    pub propagated : t'.propagated ≡ t.propagated
    pub dirty : t'.dirty ≡ t.dirty
    pub replies :
        t'.replies
        ≡ (c, (if (t.client c).dirty_exec then exec_abort else null_multi_bulk)) ∷ t.replies
    pub client : t'.client c ≡ cleared (t.client c)
    pub empty : t'.watched c ≡ []
    pub consistent : IsConsistent t'

  -- Once a key that a client in a transaction watches was touched, its EXEC is refused, where between
  -- the two come only these: keys are touched, databases flushed, the data changed or databases
  -- selected by commands; any client queues a command, has an error in one, or sends WATCH or MULTI;
  -- another client sends DISCARD, UNWATCH or EXEC, whose commands do no more than that, or has its
  -- watched keys given up when it is freed.
  pub exec_command-Refused :
      (read_only : C → Bool) (call : Server D C → ℕ → C → Server D C × C) (s t : Server D C) (c : ℕ)
      (wk : WatchedKey)
      → IsConsistent s
      → (s.client c).multi ≡ true
      → has (same_key wk) (s.watched c) ≡ true
      → Events c (touch_watched_key s wk) t
      → (t' : Server D C) × (exec_command read_only call t c ≡ some t') × Refused c t t'
  unfolding exec_command
  exec_command-Refused read_only call s t c wk ok multi there events =
      let doomed = Events-IsDoomed (touched-IsDoomed c s wk ok multi there) events in
      let told = add_reply t c (if (t.client c).dirty_exec then exec_abort else null_multi_bulk) in
      let (t', runs, after) = discard_transaction_lem told c doomed.consistent in
      rw (doomed.multi, doomed.dirty)
        (
          t',
          runs,
          record {
            outside = after.outside;
            propagated = after.propagated;
            dirty = after.dirty;
            replies = after.replies;
            client = ap (λ f. f c) after.client ∙ rw (eq_self c) refl;
            empty = after.empty;
            consistent = after.consistent;
          },
        )
