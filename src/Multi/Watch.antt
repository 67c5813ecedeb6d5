-- ===== src/Multi/Watch.antt =====
-- multi.c: both sides of the watched keys agree, and a touch marks the clients that watch.
use commit_redis.Prelude.{
  ℕ, ◌≡◌, refl, ◌∙◌, ap, Bool, true, false, Bool-cases, inl, inr, some, List, [], ◌∷◌, ◌++◌, ◌==◌,
  if◌then◌else◌, arith,
}
use commit_redis.Objects.{Text, same_text_laws}
use commit_redis.Sides.Defs.{
  SameLaws, has, remove_first, at_client, at_key, clients_of, entry_of_clients, same_pair_laws,
}
use commit_redis.Sides.Count.{has_of_count}
use commit_redis.Sides.Agree.{
  Agree, Agree-add, Agree-remove, OneMore-append, listed_clients, eq_self,
}
use commit_redis.Multi.Defs.{
  WatchedKey, same_key, MultiClient, Server, set_client, watch_for_key, unwatch_key, unwatch_loop,
  unwatch_all_keys, mark_dirty, touch_watched_key,
}

pub same_key_laws : SameLaws same_key
same_key_laws = same_pair_laws same_text_laws

has-append_one :
    (wk : WatchedKey) (ks : List WatchedKey) → has (same_key wk) (ks ++ (wk ∷ [])) ≡ true
has-append_one wk [] = rw (same_key_laws.self wk) refl
has-append_one wk (k ∷ ks) = elim (Bool-cases (same_key wk k)) [
  | inl e ↦ rw e refl
  | inr e ↦ rw e (has-append_one wk ks)
]

-- A client with the flag REDIS_DIRTY_CAS set under a test.
abbrev pub marked : {C : Type 0} → MultiClient C → Bool → MultiClient C
marked m b = if b then record m { dirty_cas = true } else m

marked_twice :
    {C : Type 0} (m : MultiClient C) (b : Bool)
    → marked (record m { dirty_cas = true }) b ≡ record m { dirty_cas = true }
marked_twice m true = refl
marked_twice m false = refl

module _ {D C : Type 0} where
  abbrev pub IsConsistent : Server D C → Type 0
  IsConsistent s = Agree same_key s.watched s.watchers

  -- A client watches the key after it asked to, whether it did before or not, in the database that it
  -- has selected; both sides agree after it.
  pub watch_for_key-IsConsistent :
      (s : Server D C) (c : ℕ) (key : Text)
      → IsConsistent s
      → IsConsistent (watch_for_key s c key)
        × (has (same_key ((s.client c).db, key)) ((watch_for_key s c key).watched c) ≡ true)
  unfolding watch_for_key
  watch_for_key-IsConsistent s c key ok =
      let wk : WatchedKey = ((s.client c).db, key) in
      elim (Bool-cases (has (same_key wk) (s.watched c))) [
        | inl there ↦ rw there (ok, there)
        | inr new ↦ rw new (
          Agree-add same_key_laws ok c wk (s.watched c ++ (wk ∷ [])) new
              (OneMore-append same_key_laws wk (s.watched c)),
          rw (eq_self c) (has-append_one wk (s.watched c)),
        )
      ]

  -- What is left when a client watches nothing any more: all else is as it was.
  pub record Unwatched (s : Server D C) (c : ℕ) (s' : Server D C) : Type 0 where
    pub consistent : IsConsistent s'
    pub empty : s'.watched c ≡ []
    pub outside : s'.outside ≡ s.outside
    pub client : s'.client ≡ s.client
    pub replies : s'.replies ≡ s.replies
    pub propagated : s'.propagated ≡ s.propagated
    pub dirty : s'.dirty ≡ s.dirty

  unwatch_loop_lem :
      (s : Server D C) (c : ℕ) (ks : List WatchedKey)
      → IsConsistent s
      → s.watched c ≡ ks
      → (s' : Server D C) × (unwatch_loop s c ks ≡ some s') × Unwatched s c s'
  unfolding unwatch_loop unwatch_key
  unwatch_loop_lem s c [] ok e = (
    s,
    refl,
    record {
      consistent = ok;
      empty = e;
      outside = refl;
      client = refl;
      replies = refl;
      propagated = refl;
      dirty = refl;
    },
  )
  unwatch_loop_lem s c (wk ∷ ks) ok e =
      let there : has (same_key wk) (s.watched c) ≡ true = rw (e, same_key_laws.self wk) refl in
      let (cs, held, listed) = listed_clients same_key_laws ok c wk there in
      let s₁ : Server D C = record s {
        watchers = at_key same_key s.watchers wk (entry_of_clients (remove_first (λ x. c == x) cs));
        watched = at_client s.watched c (remove_first (same_key wk) (s.watched c));
      } in
      let rest : s₁.watched c ≡ ks = rw (eq_self c, e, same_key_laws.self wk) refl in
      let (s', runs, after) =
        unwatch_loop_lem s₁ c ks (Agree-remove same_key_laws ok c wk cs held listed there) rest in
      rw (held, unwatch_loop, unwatch_key, listed)
        (
          s',
          runs,
          record {
            consistent = after.consistent;
            empty = after.empty;
            outside = after.outside;
            client = after.client;
            replies = after.replies;
            propagated = after.propagated;
            dirty = after.dirty;
          },
        )

  -- From a state where both sides agree a client gives up all that it watches with no assertion
  -- failed: it watches nothing, both sides agree, and nothing else changes.
  pub unwatch_all_keys_lem :
      (s : Server D C) (c : ℕ)
      → IsConsistent s
      → (s' : Server D C) × (unwatch_all_keys s c ≡ some s') × Unwatched s c s'
  unwatch_all_keys_lem s c ok = unwatch_loop_lem s c (s.watched c) ok refl

  mark_dirty_lem :
      (s : Server D C) (cs : List ℕ) (c : ℕ)
      → (mark_dirty s cs).client c ≡ marked (s.client c) (has (λ x. c == x) cs)
  unfolding mark_dirty
  mark_dirty_lem s [] c = refl
  mark_dirty_lem s (x ∷ cs) c =
      let s₁ = set_client s x (record (s.client x) { dirty_cas = true }) in
      mark_dirty_lem s₁ cs c ∙ elim (Bool-cases (c == x)) [
        | inl e ↦
            let same : x ≡ c = ground arith in
            rw (same, eq_self c) (marked_twice (s.client c) (has (λ y. c == y) cs))
        | inr e ↦ let other : (x == c) ≡ false = ground arith in rw (e, other) refl
      ]

  -- Nothing but the clients changes.
  pub mark_dirty_rest :
      (s : Server D C) (cs : List ℕ)
      → mark_dirty s cs ≡ record s { client = (mark_dirty s cs).client }
  unfolding mark_dirty
  mark_dirty_rest s [] = refl
  mark_dirty_rest s (x ∷ cs) =
      mark_dirty_rest (set_client s x (record (s.client x) { dirty_cas = true })) cs

  -- A touch of a key sets REDIS_DIRTY_CAS for the clients that watch it and for no other, and changes
  -- nothing else.
  pub touch_watched_key_lem :
      (s : Server D C) (wk : WatchedKey)
      → IsConsistent s
      → ((c : ℕ)
          → (touch_watched_key s wk).client c
            ≡ marked (s.client c) (has (same_key wk) (s.watched c)))
        × (touch_watched_key s wk ≡ record s { client = (touch_watched_key s wk).client })
  touch_watched_key_lem s wk ok = (
    λ c.
        mark_dirty_lem s (clients_of (s.watchers wk)) c
        ∙ ap (marked (s.client c)) (
            has_of_count (λ x. c == x) (same_key wk) (clients_of (s.watchers wk)) (s.watched c)
              (ok.both c wk)),
    mark_dirty_rest s (clients_of (s.watchers wk)),
  )
