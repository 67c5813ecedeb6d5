-- ===== src/Pubsub/Channels.antt =====
-- pubsub.c: a subscription keeps both sides in agreement.
use commit_redis.Prelude.{ℕ, ◌≡◌, refl, true, Bool-cases, inl, inr, ◌∷◌}
use commit_redis.Objects.{Text, same_text, same_text_refl, same_text_laws}
use commit_redis.Sides.Defs.{has}
use commit_redis.Sides.Agree.{Agree, Agree-add, OneMore-cons, PairsAgree, PairsAgree-add, eq_self}
use commit_redis.Pubsub.Defs.{Pubsub, subscribe_channel, subscribe_pattern}

-- Each client is in the list of a channel exactly where the channel is among the client's, and so
-- for the server's list of patterns; nothing is there twice, and no channel has an empty list.
pub record IsConsistent (s : Pubsub) : Type 0 where
  pub channels : Agree same_text s.client_channels s.channels
  pub patterns : PairsAgree same_text_laws s.client_patterns s.patterns

-- A subscription keeps both sides in agreement, and the channel is among the client's after it,
-- whether it was before or not.
pub subscribe_channel-IsConsistent :
    (s : Pubsub) (c : ℕ) (ch : Text)
    → IsConsistent s
    → IsConsistent (subscribe_channel s c ch).0
      × (has (same_text ch) ((subscribe_channel s c ch).0.client_channels c) ≡ true)
unfolding subscribe_channel
subscribe_channel-IsConsistent s c ch ok =
    elim (Bool-cases (has (same_text ch) (s.client_channels c))) [
      | inl there ↦ rw there (record { channels = ok.channels; patterns = ok.patterns }, there)
      | inr new ↦ rw new (
        record {
          channels =
              Agree-add same_text_laws ok.channels c ch (ch ∷ s.client_channels c) new
                (OneMore-cons same_text_laws ch (s.client_channels c));
          patterns = ok.patterns;
        },
        rw (eq_self c, same_text_refl ch) refl,
      )
    ]

-- The same for a pattern.
pub subscribe_pattern-IsConsistent :
    (s : Pubsub) (c : ℕ) (p : Text) → IsConsistent s → IsConsistent (subscribe_pattern s c p).0
unfolding subscribe_pattern
subscribe_pattern-IsConsistent s c p ok =
    elim (Bool-cases (has (same_text p) (s.client_patterns c))) [
      | inl there ↦ rw there (record { channels = ok.channels; patterns = ok.patterns })
      | inr new ↦ rw new (record {
        channels = ok.channels;
        patterns = PairsAgree-add same_text_laws ok.patterns c p new;
      })
    ]
