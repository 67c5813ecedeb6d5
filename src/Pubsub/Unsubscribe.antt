-- ===== src/Pubsub/Unsubscribe.antt =====
-- pubsub.c: unsubscriptions never fail an assertion, and undo one subscription.
use commit_redis.Prelude.{
  ℕ, ◌≡◌, refl, ◌∙◌, Bool, true, false, Bool-cases, inl, inr, Option, none, some, List, [], ◌∷◌,
  ◌==◌, ◌&&◌, if◌then◌else◌, length,
}
use commit_redis.Objects.{Text, same_text, same_text_refl, same_text_laws}
use commit_redis.Sides.Defs.{has, remove_first, at_client, at_key, entry_of_clients}
use commit_redis.Sides.Count.{remove_first-absent}
use commit_redis.Sides.Agree.{Agree-remove, PairsAgree-remove, listed_clients, eq_self}
use commit_redis.Pubsub.Defs.{
  Notice, unsubscribed, punsubscribed, Pubsub, add_reply, leave_channel, unsubscribe_channel,
  match_pubsub_pattern, unsubscribe_pattern, unsubscribe_each, unsubscribe_all_channels,
  subscriptions,
}
use commit_redis.Pubsub.Channels.{IsConsistent}

-- A notice changes none of the subscriptions.
abbrev told : Bool → Pubsub → ℕ → Notice → Pubsub
told notify s c n = if notify then add_reply s c n else s

told-IsConsistent :
    (notify : Bool) (s : Pubsub) (c : ℕ) (n : Notice)
    → IsConsistent s
    → IsConsistent (told notify s c n)
told-IsConsistent true s c n ok = record { channels = ok.channels; patterns = ok.patterns }
told-IsConsistent false s c n ok = ok

keys-told :
    (notify : Bool) (s : Pubsub) (c : ℕ) (n : Notice)
    → ((told notify s c n).client_channels ≡ s.client_channels)
      × ((told notify s c n).client_patterns ≡ s.client_patterns)
keys-told true s c n = (refl, refl)
keys-told false s c n = (refl, refl)

-- What an unsubscription achieves: it returns whether the client was subscribed, both sides agree
-- after it, and of the client's channels that one is gone.
abbrev pub Unsubscribed : Pubsub → ℕ → Text → Option (Pubsub × Bool) → Type 0
Unsubscribed s c ch result =
    (s' : Pubsub) × (result ≡ some (s', has (same_text ch) (s.client_channels c)))
    × IsConsistent s'
    × (s'.client_channels c ≡ remove_first (same_text ch) (s.client_channels c))

-- From a state where both sides agree no assertion fails: the result tells whether the client was
-- subscribed, both sides agree after it, and that channel is removed from the client's.
pub unsubscribe_channel_lem :
    (s : Pubsub) (c : ℕ) (ch : Text) (notify : Bool)
    → IsConsistent s
    → Unsubscribed s c ch (unsubscribe_channel s c ch notify)
unfolding unsubscribe_channel leave_channel
unsubscribe_channel_lem s c ch notify ok =
    elim (Bool-cases (has (same_text ch) (s.client_channels c))) [
      | inr e ↦
          let n = unsubscribed (some ch) (subscriptions s c) in
          let same = remove_first-absent (same_text ch) (s.client_channels c) e in
          rw e (
            told notify s c n,
            refl,
            told-IsConsistent notify s c n ok,
            rw ((keys-told notify s c n).0, same) refl,
          )
      | inl e ↦
          let (cs, held, listed) = listed_clients same_text_laws ok.channels c ch e in
          let s' = record s {
            client_channels =
                at_client s.client_channels c (remove_first (same_text ch) (s.client_channels c));
            channels =
                at_key same_text s.channels ch (entry_of_clients (remove_first (λ x. c == x) cs));
          } in
          let ok' : IsConsistent s' = record {
            channels = Agree-remove same_text_laws ok.channels c ch cs held listed e;
            patterns = ok.patterns;
          } in
          let n = unsubscribed (some ch) (subscriptions s' c) in
          rw (e, held, listed)
            (
              told notify s' c n,
              refl,
              told-IsConsistent notify s' c n ok',
              rw ((keys-told notify s' c n).0, eq_self c) refl,
            )
    ]

-- What an unsubscription from a pattern achieves.
abbrev pub Punsubscribed : Pubsub → ℕ → Text → Option (Pubsub × Bool) → Type 0
Punsubscribed s c p result =
    (s' : Pubsub) × (result ≡ some (s', has (same_text p) (s.client_patterns c)))
    × IsConsistent s'
    × (s'.client_patterns c ≡ remove_first (same_text p) (s.client_patterns c))

-- The same for a pattern: the node that is released on the server's side is there, the result tells
-- whether the client was subscribed, both sides agree after it, and of the client's patterns that one
-- is gone.
pub unsubscribe_pattern_lem :
    (s : Pubsub) (c : ℕ) (p : Text) (notify : Bool)
    → IsConsistent s
    → Punsubscribed s c p (unsubscribe_pattern s c p notify)
unfolding unsubscribe_pattern
unsubscribe_pattern_lem s c p notify ok =
    elim (Bool-cases (has (same_text p) (s.client_patterns c))) [
      | inr e ↦
          let n = punsubscribed (some p) (subscriptions s c) in
          let same = remove_first-absent (same_text p) (s.client_patterns c) e in
          rw e (
            told notify s c n,
            refl,
            told-IsConsistent notify s c n ok,
            rw ((keys-told notify s c n).1, same) refl,
          )
      | inl e ↦
          let (listed, after) = PairsAgree-remove same_text_laws ok.patterns c p e in
          let s' = record s {
            client_patterns =
                at_client s.client_patterns c (remove_first (same_text p) (s.client_patterns c));
            patterns = remove_first (match_pubsub_pattern (c, p)) s.patterns;
          } in
          let ok' : IsConsistent s' = record { channels = ok.channels; patterns = after } in
          let n = punsubscribed (some p) (subscriptions s' c) in
          rw (e, listed)
            (
              told notify s' c n,
              refl,
              told-IsConsistent notify s' c n ok',
              rw ((keys-told notify s' c n).1, eq_self c) refl,
            )
    ]

unsubscribe_rest :
    (s : Pubsub) (c : ℕ) (chs : List Text) (notify : Bool)
    → IsConsistent s
    → s.client_channels c ≡ chs
    → (s' : Pubsub) × (unsubscribe_each (λ t ch. unsubscribe_channel t c ch notify) s chs
        ≡ some (s', length chs))
      × IsConsistent s'
      × (s'.client_channels c ≡ [])
unfolding unsubscribe_each
unsubscribe_rest s c [] notify ok e = (s, refl, ok, e)
unsubscribe_rest s c (ch ∷ chs) notify ok e =
    let (s₁, runs, ok₁, one) = unsubscribe_channel_lem s c ch notify ok in
    let there : has (same_text ch) (s.client_channels c) ≡ true = rw (e, same_text_refl ch) refl in
    let rest : s₁.client_channels c ≡ chs = one ∙ rw (e, same_text_refl ch) refl in
    let (s₂, runs₂, ok₂, empty) = unsubscribe_rest s₁ c chs notify ok₁ rest in
    rw (runs, there, runs₂) (s₂, refl, ok₂, empty)

-- From a state where both sides agree the loop over a client's channels fails no assertion: it
-- answers how many there were, both sides agree after it, and the client has no channel left.
pub unsubscribe_all_channels_lem :
    (s : Pubsub) (c : ℕ) (notify : Bool)
    → IsConsistent s
    → (s' : Pubsub) × (unsubscribe_all_channels s c notify
        ≡ some (s', length (s.client_channels c)))
      × IsConsistent s'
      × (s'.client_channels c ≡ [])
unfolding unsubscribe_all_channels
unsubscribe_all_channels_lem s c notify ok =
    let (s', runs, ok', empty) = unsubscribe_rest s c (s.client_channels c) notify ok refl in
    let n = unsubscribed none (subscriptions s' c) in
    let b = notify && (length (s.client_channels c) == 0) in
    rw runs (told b s' c n, refl, told-IsConsistent b s' c n ok', rw (keys-told b s' c n).0 empty)
