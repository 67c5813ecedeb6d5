-- ===== src/Pubsub/Defs.antt =====
-- The state and the functions of redis-2.6.12/src/pubsub.c. A client is a number, a channel or a
-- pattern the text of its string object. `none` is a failed assertion or the release of a NULL node.
use commit_redis.Prelude.{
  ℕ, suc, ◌+◌, Bool, true, false, ◌&&◌, Option, none, some, List, [], ◌∷◌, ◌++◌, ◌==◌,
  if◌then◌else◌, length, ◌>>=◌, is_nil,
}
use commit_redis.Objects.{Text, same_text}
use commit_redis.Sides.Defs.{
  has, remove_first, at_client, at_key, clients_of, entry_of_clients, same_pair,
}

-- What a client is sent; the number is of the channels and patterns that it has left.
pub data Notice : Type 0 where
  subscribed psubscribed : Text → ℕ → Notice
  unsubscribed punsubscribed : Option Text → ℕ → Notice
  message : Text → Text → Notice
  pmessage : Text → Text → Text → Notice

-- A pubsubPattern.
abbrev pub PubsubPattern : Type 0
PubsubPattern = ℕ × Text

-- `channels` and `patterns` are the server's, a dictionary as the map that it stands for;
-- `client_channels` are the keys of a client's dictionary, in the order in which they are visited;
-- the newest notice in `sent` is first.
pub record Pubsub : Type 0 where
  pub channels : Text → Option (List ℕ)
  pub patterns : List PubsubPattern
  pub client_channels : ℕ → List Text
  pub client_patterns : ℕ → List Text
  pub sent : List (ℕ × Notice)

-- listMatchPubsubPattern
abbrev pub match_pubsub_pattern : PubsubPattern → PubsubPattern → Bool
match_pubsub_pattern = same_pair same_text

abbrev pub subscriptions : Pubsub → ℕ → ℕ
subscriptions s c = length (s.client_channels c) + length (s.client_patterns c)

abbrev pub add_reply : Pubsub → ℕ → Notice → Pubsub
add_reply s c n = record s { sent = (c, n) ∷ s.sent }

-- pubsubSubscribeChannel
unfoldable pub subscribe_channel : Pubsub → ℕ → Text → Pubsub × Bool
subscribe_channel s c ch =
    let s₁ = record s {
      client_channels = at_client s.client_channels c (ch ∷ s.client_channels c);
      channels = at_key same_text s.channels ch (some (clients_of (s.channels ch) ++ (c ∷ [])));
    } in
    if has (same_text ch) (s.client_channels c)
    then (add_reply s c (subscribed ch (subscriptions s c)), false)
    else (add_reply s₁ c (subscribed ch (subscriptions s₁ c)), true)

-- The server's half of pubsubUnsubscribeChannel: an empty list is taken out of the dictionary.
unfoldable pub leave_channel : Pubsub → ℕ → Text → Option Pubsub
leave_channel s c ch = elim (s.channels ch) [
  | none ↦ none
  | some clients ↦
      let rest = remove_first (λ c'. c == c') clients in
      if has (λ c'. c == c') clients
      then some (record s { channels = at_key same_text s.channels ch (entry_of_clients rest) })
      else none
]

-- pubsubUnsubscribeChannel
unfoldable pub unsubscribe_channel : Pubsub → ℕ → Text → Bool → Option (Pubsub × Bool)
unsubscribe_channel s c ch notify = do
  (s', removed) ←
      (if has (same_text ch) (s.client_channels c)
        then (do
          s₂ ←
              leave_channel
                (record s {
                  client_channels =
                      at_client s.client_channels c
                        (remove_first (same_text ch) (s.client_channels c));
                })
                c ch
          some (s₂, true))
        else some (s, false))
  some (
    (if notify then add_reply s' c (unsubscribed (some ch) (subscriptions s' c)) else s'),
    removed,
  )

-- pubsubSubscribePattern
unfoldable pub subscribe_pattern : Pubsub → ℕ → Text → Pubsub × Bool
subscribe_pattern s c p =
    let s₁ = record s {
      client_patterns = at_client s.client_patterns c (s.client_patterns c ++ (p ∷ []));
      patterns = s.patterns ++ ((c, p) ∷ []);
    } in
    if has (same_text p) (s.client_patterns c)
    then (add_reply s c (psubscribed p (subscriptions s c)), false)
    else (add_reply s₁ c (psubscribed p (subscriptions s₁ c)), true)

-- pubsubUnsubscribePattern
unfoldable pub unsubscribe_pattern : Pubsub → ℕ → Text → Bool → Option (Pubsub × Bool)
unsubscribe_pattern s c p notify = do
  (s', removed) ←
      (if has (same_text p) (s.client_patterns c)
        then (if has (match_pubsub_pattern (c, p)) s.patterns
            then some (
              record s {
                client_patterns =
                    at_client s.client_patterns c
                      (remove_first (same_text p) (s.client_patterns c));
                patterns = remove_first (match_pubsub_pattern (c, p)) s.patterns;
              },
              true,
            )
            else none)
        else some (s, false))
  some (
    (if notify then add_reply s' c (punsubscribed (some p) (subscriptions s' c)) else s'),
    removed,
  )

-- The loop of an unsubscription from a list of channels or patterns, with the count.
unfoldable pub unsubscribe_each :
    (Pubsub → Text → Option (Pubsub × Bool)) → Pubsub → List Text → Option (Pubsub × ℕ)
unsubscribe_each one s [] = some (s, 0)
unsubscribe_each one s (t ∷ ts) = do
  (s', removed) ← one s t
  (s₂, count) ← unsubscribe_each one s' ts
  some (s₂, (if removed then suc count else count))

-- pubsubUnsubscribeAllChannels; the safe iterator visits each key that was there.
unfoldable pub unsubscribe_all_channels : Pubsub → ℕ → Bool → Option (Pubsub × ℕ)
unsubscribe_all_channels s c notify = do
  (s', count) ← unsubscribe_each (λ t ch. unsubscribe_channel t c ch notify) s (s.client_channels c)
  some (
    (if notify && (count == 0)
        then add_reply s' c (unsubscribed none (subscriptions s' c))
        else s'),
    count,
  )

-- pubsubUnsubscribeAllPatterns
unfoldable pub unsubscribe_all_patterns : Pubsub → ℕ → Bool → Option (Pubsub × ℕ)
unsubscribe_all_patterns s c notify = do
  (s', count) ← unsubscribe_each (λ t p. unsubscribe_pattern t c p notify) s (s.client_patterns c)
  some (
    (if notify && (count == 0)
        then add_reply s' c (punsubscribed none (subscriptions s' c))
        else s'),
    count,
  )

-- The two loops of pubsubPublishMessage; `glob` is stringmatchlen.
unfoldable pub send_to_clients : Pubsub → List ℕ → Text → Text → Pubsub × ℕ
send_to_clients s [] ch m = (s, 0)
send_to_clients s (c ∷ cs) ch m =
    let (s', receivers) = send_to_clients (add_reply s c (message ch m)) cs ch m in
    (s', suc receivers)

unfoldable pub send_to_patterns :
    (Text → Text → Bool) → Pubsub → List PubsubPattern → Text → Text → Pubsub × ℕ
send_to_patterns glob s [] ch m = (s, 0)
send_to_patterns glob s ((c, p) ∷ ps) ch m =
    let matched = send_to_patterns glob (add_reply s c (pmessage p ch m)) ps ch m in
    let skipped = send_to_patterns glob s ps ch m in
    if glob p ch then (matched.0, suc matched.1) else skipped

-- pubsubPublishMessage
unfoldable pub publish_message : (Text → Text → Bool) → Pubsub → Text → Text → Pubsub × ℕ
publish_message glob s ch m =
    let (s₁, direct) = send_to_clients s (clients_of (s.channels ch)) ch m in
    let (s₂, matched) = send_to_patterns glob s₁ s₁.patterns ch m in (s₂, direct + matched)

-- subscribeCommand, psubscribeCommand: one call for each argument.
unfoldable pub subscribe_command : Pubsub → ℕ → List Text → Pubsub
subscribe_command s c [] = s
subscribe_command s c (ch ∷ chs) = subscribe_command (subscribe_channel s c ch).0 c chs

unfoldable pub psubscribe_command : Pubsub → ℕ → List Text → Pubsub
psubscribe_command s c [] = s
psubscribe_command s c (p ∷ ps) = psubscribe_command (subscribe_pattern s c p).0 c ps

-- unsubscribeCommand, punsubscribeCommand: all of them where there is no argument.
unfoldable pub unsubscribe_command : Pubsub → ℕ → List Text → Option (Pubsub × ℕ)
unsubscribe_command s c args =
    if is_nil args
    then unsubscribe_all_channels s c true
    else unsubscribe_each (λ t ch. unsubscribe_channel t c ch true) s args

unfoldable pub punsubscribe_command : Pubsub → ℕ → List Text → Option (Pubsub × ℕ)
punsubscribe_command s c args =
    if is_nil args
    then unsubscribe_all_patterns s c true
    else unsubscribe_each (λ t p. unsubscribe_pattern t c p true) s args
