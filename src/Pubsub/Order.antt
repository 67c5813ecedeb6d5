-- ===== src/Pubsub/Order.antt =====
-- pubsub.c: the order in which the subscribers of a channel receive a message.
use mathlib.Core.List.{append_assoc, append-nil, map-append}
use commit_redis.Prelude.{
  ℕ, ◌+◌, ◌≡◌, refl, ◌∙◌, ap, Bool, true, false, not, ◌&&◌, Bool-cases, inl, inr, List, [], ◌∷◌,
  ◌++◌, length, length-map, length-append, arith,
}
use commit_redis.Objects.{Text, same_text, same_text_refl}
use commit_redis.Sides.Defs.{has, clients_of}
use commit_redis.Pubsub.Defs.{Pubsub, Notice, message, subscribe_channel, publish_message}
use commit_redis.Pubsub.Publish.{deliver, matching, to_clients, publish_message_lem}

-- Clients that subscribe to a channel one after the other.
abbrev pub subscribe_each : Pubsub → List ℕ → Text → Pubsub
subscribe_each s [] ch = s
subscribe_each s (c ∷ cs) ch = subscribe_each (subscribe_channel s c ch).0 cs ch

-- Each of the clients is without the channel when its turn comes.
abbrev pub each_new : Pubsub → List ℕ → Text → Bool
each_new s [] ch = true
each_new s (c ∷ cs) ch =
    let rest = each_new (subscribe_channel s c ch).0 cs ch in
    not (has (same_text ch) (s.client_channels c)) && rest

subscribe_channel_lem :
    (s : Pubsub) (c : ℕ) (ch : Text)
    → has (same_text ch) (s.client_channels c) ≡ false
    → (clients_of ((subscribe_channel s c ch).0.channels ch)
        ≡ clients_of (s.channels ch) ++ (c ∷ []))
      × ((subscribe_channel s c ch).0.patterns ≡ s.patterns)
unfolding subscribe_channel
subscribe_channel_lem s c ch new = rw (new, same_text_refl ch) (refl, refl)

subscribe_each_lem :
    (s : Pubsub) (cs : List ℕ) (ch : Text)
    → each_new s cs ch ≡ true
    → (clients_of ((subscribe_each s cs ch).channels ch) ≡ clients_of (s.channels ch) ++ cs)
      × ((subscribe_each s cs ch).patterns ≡ s.patterns)
subscribe_each_lem s [] ch new = (rw (append-nil (clients_of (s.channels ch))) refl, refl)
subscribe_each_lem s (c ∷ cs) ch new =
    elim (Bool-cases (has (same_text ch) (s.client_channels c))) [
      | inl there ↦ absurd (ground (arith, rw there at new))
      | inr first ↦
          let one = subscribe_channel_lem s c ch first in
          let more =
            subscribe_each_lem (subscribe_channel s c ch).0 cs ch
              (ground (arith, rw first at new)) in
          (
            more.0
                ∙ ap (λ l. l ++ cs) one.0
                ∙ append_assoc (clients_of (s.channels ch)) (c ∷ []) cs,
            more.1 ∙ one.1,
          )
    ]

counted :
    (before cs : List ℕ) (ch m : Text) (ns : List (ℕ × Notice))
    → length (to_clients before ch m ++ (to_clients cs ch m ++ ns))
      ≡ length before + length cs + length ns
counted before cs ch m ns =
    rw
      (
        length-append (to_clients before ch m) (to_clients cs ch m ++ ns),
        length-append (to_clients cs ch m) ns,
        length-map {B = ℕ × Notice} before (λ c. (c, message ch m)),
        length-map {B = ℕ × Notice} cs (λ c. (c, message ch m)),
      )
      (omega arith)

-- Where clients that are without a channel subscribe to it one after the other and a message is then
-- published to it, the message goes to those that were in the channel before, then to the new ones in
-- the order in which they subscribed, then to the client of each pattern that matches, once for each;
-- nothing else changes, and the answer is the number of these notices.
pub publish_message-subscribe_each :
    (glob : Text → Text → Bool) (s : Pubsub) (cs : List ℕ) (ch m : Text)
    → each_new s cs ch ≡ true
    → publish_message glob (subscribe_each s cs ch) ch m ≡ (
      deliver
          (to_clients (clients_of (s.channels ch)) ch m
            ++ (to_clients cs ch m ++ matching glob s.patterns ch m))
          (subscribe_each s cs ch),
      length (clients_of (s.channels ch)) + length cs + length (matching glob s.patterns ch m),
    )
publish_message-subscribe_each glob s cs ch m new =
    let (clients, patterns) = subscribe_each_lem s cs ch new in
    let before = clients_of (s.channels ch) in
    let notices : List (ℕ × Notice) =
      to_clients before ch m ++ (to_clients cs ch m ++ matching glob s.patterns ch m) in
    let listed : to_clients (before ++ cs) ch m ++ matching glob s.patterns ch m ≡ notices =
      ap (λ l. l ++ matching glob s.patterns ch m) (map-append (λ c. (c, message ch m)) before cs)
      ∙ append_assoc (to_clients before ch m) (to_clients cs ch m)
          (matching glob s.patterns ch m) in
    publish_message_lem glob (subscribe_each s cs ch) ch m
    ∙ rw (clients, patterns, listed, counted before cs ch m (matching glob s.patterns ch m)) refl
