-- ===== src/Multi/Doomed.antt =====
-- multi.c: a client in a transaction whose watched keys were touched, under what others do.
use commit_redis.Prelude.{
  ℕ, ◌≡◌, refl, ◌∙◌, ap, Bool, true, false, Bool-cases, inl, inr, Option, some, List, [], ◌∷◌, ◌==◌,
  if◌then◌else◌, arith,
}
use commit_redis.Objects.{Text}
use commit_redis.Sides.Defs.{has}
use commit_redis.Multi.Defs.{
  WatchedKey, same_key, MultiClient, MultiReply, reply_ok, no_multi, nested_multi, Server,
  set_client, add_reply, flag_transaction, flushes_any, watch_for_key, watch_keys, watch_command,
  watch_inside_multi, unwatch_command, touch_watched_key, touch_on_flush, discard_transaction,
  multi_command, discard_command,
}
use commit_redis.Multi.Watch.{
  IsConsistent, Unwatched, marked, watch_for_key-IsConsistent, unwatch_all_keys_lem,
  touch_watched_key_lem,
}

marked_flags :
    {C : Type 0} (m : MultiClient C) (b : Bool)
    → m.multi ≡ true
    → m.dirty_cas ≡ true
    → ((marked m b).multi ≡ true) × ((marked m b).dirty_cas ≡ true)
marked_flags m true e f = (e, refl)
marked_flags m false e f = (e, f)

same_result : {A : Type 0} {o : Option A} {x y : A} → o ≡ some x → o ≡ some y → x ≡ y
same_result e f = cc

-- The client after a transaction that ended.
abbrev pub cleared : {C : Type 0} → MultiClient C → MultiClient C
cleared m = record m { multi = false; dirty_cas = false; dirty_exec = false; commands = [] }

module _ {D C : Type 0} where
  -- A client in a transaction whose watched keys were touched.
  pub record IsDoomed (c : ℕ) (s : Server D C) : Type 0 where
    pub consistent : IsConsistent s
    pub multi : (s.client c).multi ≡ true
    pub dirty : (s.client c).dirty_cas ≡ true

  -- A change of one client that keeps its two flags.
  pub set_client-IsDoomed :
      (c d : ℕ) (s : Server D C) (m : MultiClient C)
      → IsDoomed c s
      → ((d == c) ≡ true → (m.multi ≡ true) × (m.dirty_cas ≡ true))
      → IsDoomed c (set_client s d m)
  set_client-IsDoomed c d s m ok keep = elim (Bool-cases (d == c)) [
    | inl e ↦ record {
      consistent = ok.consistent;
      multi = rw e (keep e).0;
      dirty = rw e (keep e).1;
    }
    | inr e ↦ record { consistent = ok.consistent; multi = rw e ok.multi; dirty = rw e ok.dirty }
  ]

  -- The flags of the client itself, where a change is at it.
  pub own_flags :
      (c d : ℕ) (s : Server D C)
      → IsDoomed c s
      → (d == c) ≡ true
      → ((s.client d).multi ≡ true) × ((s.client d).dirty_cas ≡ true)
  own_flags c d s ok e = let same : d ≡ c = ground arith in rw same (ok.multi, ok.dirty)

  pub touch-IsDoomed :
      (c : ℕ) (s : Server D C) (wk : WatchedKey)
      → IsDoomed c s
      → IsDoomed c (touch_watched_key s wk)
  touch-IsDoomed c s wk ok =
      let (here_c, rest) = touch_watched_key_lem s wk ok.consistent in
      let flags = marked_flags (s.client c) (has (same_key wk) (s.watched c)) ok.multi ok.dirty in
      record {
        consistent = rw rest ok.consistent;
        multi = rw (here_c c) flags.0;
        dirty = rw (here_c c) flags.1;
      }

  pub flush-IsDoomed :
      (c : ℕ) (present : WatchedKey → Bool) (dbid : Option ℕ) (s : Server D C) (cs : List ℕ)
      → IsDoomed c s
      → IsDoomed c (touch_on_flush present dbid s cs)
  unfolding touch_on_flush
  flush-IsDoomed c present dbid s [] ok = ok
  flush-IsDoomed c present dbid s (d ∷ cs) ok =
      elim (Bool-cases (flushes_any present dbid (s.watched d))) [
        | inl e ↦
            let m = record (s.client d) { dirty_cas = true } in
            rw e (
              flush-IsDoomed c present dbid (set_client s d m) cs
                (set_client-IsDoomed c d s m ok (λ at. ((own_flags c d s ok at).0, refl))))
        | inr e ↦ rw e (flush-IsDoomed c present dbid s cs ok)
      ]

  pub watch-IsDoomed :
      (c d : ℕ) (s : Server D C) (key : Text) → IsDoomed c s → IsDoomed c (watch_for_key s d key)
  unfolding watch_for_key
  watch-IsDoomed c d s key ok =
      let kept = (watch_for_key-IsConsistent s d key ok.consistent).0 in
      let wk : WatchedKey = ((s.client d).db, key) in
      elim (Bool-cases (has (same_key wk) (s.watched d))) [
        | inl e ↦ rw e ok
        | inr e ↦ record { consistent = kept; multi = rw e ok.multi; dirty = rw e ok.dirty }
      ]

  watch_keys-IsDoomed :
      (c d : ℕ) (s : Server D C) (keys : List Text)
      → IsDoomed c s
      → IsDoomed c (watch_keys s d keys)
  unfolding watch_keys
  watch_keys-IsDoomed c d s [] ok = ok
  watch_keys-IsDoomed c d s (key ∷ keys) ok =
      watch_keys-IsDoomed c d (watch_for_key s d key) keys (watch-IsDoomed c d s key ok)

  pub add_reply-IsDoomed :
      (c d : ℕ) (s : Server D C) (r : MultiReply) → IsDoomed c s → IsDoomed c (add_reply s d r)
  add_reply-IsDoomed c d s r ok = record {
    consistent = ok.consistent;
    multi = ok.multi;
    dirty = ok.dirty;
  }

  pub watch_command-IsDoomed :
      (c d : ℕ) (s : Server D C) (keys : List Text)
      → IsDoomed c s
      → IsDoomed c (watch_command s d keys)
  unfolding watch_command
  watch_command-IsDoomed c d s keys ok = elim (Bool-cases (s.client d).multi) [
    | inl e ↦ rw e (add_reply-IsDoomed c d s watch_inside_multi ok)
    | inr e ↦
        rw e (
          add_reply-IsDoomed c d (watch_keys s d keys) reply_ok (watch_keys-IsDoomed c d s keys ok))
  ]

  -- A client that is no other's keeps its flags while the other gives up its keys.
  pub left_alone :
      (c d : ℕ) (s s' : Server D C)
      → (d == c) ≡ false
      → IsDoomed c s
      → Unwatched s d s'
      → IsDoomed c s'
  left_alone c d s s' differ ok after = record {
    consistent = after.consistent;
    multi = ap (λ f. (f c).multi) after.client ∙ ok.multi;
    dirty = ap (λ f. (f c).dirty_cas) after.client ∙ ok.dirty;
  }

  pub discard_transaction_lem :
      (s : Server D C) (c : ℕ)
      → IsConsistent s
      → (s' : Server D C) × (discard_transaction s c ≡ some s')
        × Unwatched (set_client s c (cleared (s.client c))) c s'
  unfolding discard_transaction
  discard_transaction_lem s c ok = unwatch_all_keys_lem (set_client s c (cleared (s.client c))) c ok

  pub discard-IsDoomed :
      (c d : ℕ) (s s' : Server D C)
      → (d == c) ≡ false
      → IsDoomed c s
      → discard_command s d ≡ some s'
      → IsDoomed c s'
  unfolding discard_command
  discard-IsDoomed c d s s' differ ok e = elim (Bool-cases (s.client d).multi) [
    | inl open_one ↦
        let (s₁, runs, after) = discard_transaction_lem s d ok.consistent in
        let result : some (add_reply s₁ d reply_ok) ≡ some s' = rw (open_one, runs) at e in
        let same : add_reply s₁ d reply_ok ≡ s' = cc result in
        rw (← same) (
          add_reply-IsDoomed c d s₁ reply_ok (
            left_alone c d (set_client s d (cleared (s.client d))) s₁ differ
              (set_client-IsDoomed c d s (cleared (s.client d)) ok (λ at. cc (at, differ))) after))
    | inr shut ↦
        let result : some (add_reply s d no_multi) ≡ some s' = rw shut at e in
        let same : add_reply s d no_multi ≡ s' = cc result in
        rw (← same) (add_reply-IsDoomed c d s no_multi ok)
  ]

  pub unwatch-IsDoomed :
      (c d : ℕ) (s s' : Server D C)
      → (d == c) ≡ false
      → IsDoomed c s
      → unwatch_command s d ≡ some s'
      → IsDoomed c s'
  unfolding unwatch_command
  unwatch-IsDoomed c d s s' differ ok e =
      let (s₁, runs, after) = unwatch_all_keys_lem s d ok.consistent in
      let m = record (s₁.client d) { dirty_cas = false } in
      let result : some (add_reply (set_client s₁ d m) d reply_ok) ≡ some s' = rw runs at e in
      let same : add_reply (set_client s₁ d m) d reply_ok ≡ s' = cc result in
      let ok₁ = left_alone c d s s₁ differ ok after in
      rw (← same) (
        add_reply-IsDoomed c d (set_client s₁ d m) reply_ok
          (set_client-IsDoomed c d s₁ m ok₁ (λ at. cc (at, differ))))

  pub begin-IsDoomed : (c d : ℕ) (s : Server D C) → IsDoomed c s → IsDoomed c (multi_command s d)
  unfolding multi_command
  begin-IsDoomed c d s ok = elim (Bool-cases (s.client d).multi) [
    | inl e ↦ rw e (add_reply-IsDoomed c d s nested_multi ok)
    | inr e ↦
        let m = record (s.client d) { multi = true } in
        rw e (
          add_reply-IsDoomed c d (set_client s d m) reply_ok
            (set_client-IsDoomed c d s m ok (λ at. (refl, (own_flags c d s ok at).1))))
  ]

  pub either-IsDoomed :
      (c : ℕ) (b : Bool) (s t : Server D C)
      → IsDoomed c s
      → IsDoomed c t
      → IsDoomed c (if b then s else t)
  either-IsDoomed c true s t ok ok' = ok
  either-IsDoomed c false s t ok ok' = ok'

  pub fail-IsDoomed : (c d : ℕ) (s : Server D C) → IsDoomed c s → IsDoomed c (flag_transaction s d)
  fail-IsDoomed c d s ok =
      either-IsDoomed c (s.client d).multi
        (set_client s d (record (s.client d) { dirty_exec = true })) s
        (set_client-IsDoomed c d s (record (s.client d) { dirty_exec = true }) ok
          (own_flags c d s ok))
        ok

  pub touched-IsDoomed :
      (c : ℕ) (s : Server D C) (wk : WatchedKey)
      → IsConsistent s
      → (s.client c).multi ≡ true
      → has (same_key wk) (s.watched c) ≡ true
      → IsDoomed c (touch_watched_key s wk)
  touched-IsDoomed c s wk ok multi there =
      let (here_c, rest) = touch_watched_key_lem s wk ok in
      record {
        consistent = rw rest ok;
        multi = rw (here_c c, there) multi;
        dirty = rw (here_c c, there) refl;
      }
