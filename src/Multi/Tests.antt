-- ===== src/Multi/Tests.antt =====
-- A transaction that loses its watched key, and the theorems at it.
use commit_redis.Prelude.{ℕ, ◌+◌, ◌≡◌, refl, true, false, none, some, [], ◌∷◌, arith, Option}
use commit_redis.Objects.{Text}
use commit_redis.Sides.Defs.{has}
use commit_redis.Multi.Defs.{
  same_key, Server, touch_watched_key, watch_for_key, exec_command, exec_loop, discard_transaction,
  unwatch_loop, unwatch_key,
}
use commit_redis.Multi.Watch.{
  IsConsistent, marked, watch_for_key-IsConsistent, touch_watched_key_lem,
}
use commit_redis.Multi.Exec.{Refused, exec_command-Refused}
use commit_redis.Multi.Events.{here, next, change, work}

-- The data is a number and a command adds to it; no command only reads.
abbrev idle : Server ℕ ℕ
idle = record {
  outside = 5;
  client =
      λ c. record { multi = false; dirty_cas = false; dirty_exec = false; db = 0; commands = [] };
  clients = 1 ∷ 2 ∷ [];
  watchers = λ wk. none;
  watched = λ c. [];
  replies = [];
  propagated = [];
  dirty = 0;
}

abbrev add : Server ℕ ℕ → ℕ → ℕ → Server ℕ ℕ × ℕ
add s c n = (record s { outside = s.outside + n }, n)

abbrev key : Text
key = b'k' ∷ []

idle-IsConsistent : IsConsistent idle
idle-IsConsistent = record {
  both = λ c k. refl;
  once = λ c k. omega arith;
  used = λ k e. grind arith;
}

-- Client 1 watches the key and has one command queued.
abbrev watching : Server ℕ ℕ
watching = watch_for_key idle 1 key

watching-IsConsistent : IsConsistent watching
watching-IsConsistent = (watch_for_key-IsConsistent idle 1 key idle-IsConsistent).0

abbrev queued : Server ℕ ℕ
queued = record watching {
  client = λ c. record {
    multi = true;
    dirty_cas = false;
    dirty_exec = false;
    db = 0;
    commands = 3 ∷ [];
  };
}

queued-IsConsistent : IsConsistent queued
queued-IsConsistent = watching-IsConsistent

watches : has (same_key (0, key)) (queued.watched 1) ≡ true
unfolding watch_for_key
watches = refl

abbrev outcome : Option (Server ℕ ℕ) → Option (ℕ × ℕ)
outcome none = none
outcome (some s) = some (s.outside, s.dirty)

-- With no touch the command runs.
runs : outcome (exec_command (λ n. false) add queued 1) ≡ some (8, 1)
unfolding exec_command exec_loop discard_transaction unwatch_loop unwatch_key watch_for_key
runs = refl

touch_watched_key_example :
    ((c : ℕ)
      → (touch_watched_key queued (0, key)).client c
        ≡ marked (queued.client c) (has (same_key (0, key)) (queued.watched c)))
    × (touch_watched_key queued (0, key)
        ≡ record queued { client = (touch_watched_key queued (0, key)).client })
touch_watched_key_example = touch_watched_key_lem queued (0, key) queued-IsConsistent

exec_command-Refused_example :
    (t' : Server ℕ ℕ) × (exec_command
        (λ n. false)
        add
        (record (touch_watched_key queued (0, key)) { outside = 9 })
        1
      ≡ some t')
    × Refused 1 (record (touch_watched_key queued (0, key)) { outside = 9 }) t'
exec_command-Refused_example =
    exec_command-Refused (λ n. false) add queued
      (record (touch_watched_key queued (0, key)) { outside = 9 }) 1 (0, key) queued-IsConsistent
      refl watches (next here (change 2 (work 9)))
