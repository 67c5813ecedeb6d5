-- ===== src/Pubsub/Tests.antt =====
-- Subscriptions of two clients, and the theorems at concrete states.
use commit_redis.Prelude.{ℕ, ◌≡◌, refl, true, false, none, some, [], ◌∷◌, ◌++◌, length, arith, ◌+◌}
use commit_redis.Objects.{Text, same_text}
use commit_redis.Sides.Defs.{has, clients_of}
use commit_redis.Pubsub.Defs.{
  Pubsub, subscribe_channel, unsubscribe_channel, unsubscribe_all_channels, send_to_clients,
  send_to_patterns, publish_message,
}
use commit_redis.Pubsub.Channels.{IsConsistent, subscribe_channel-IsConsistent}
use commit_redis.Pubsub.Unsubscribe.{
  Unsubscribed, unsubscribe_channel_lem, unsubscribe_all_channels_lem,
}
use commit_redis.Pubsub.Publish.{deliver, matching, to_clients}
use commit_redis.Pubsub.Order.{subscribe_each, publish_message-subscribe_each}

abbrev nobody : Pubsub
nobody = record {
  channels = λ ch. none;
  patterns = [];
  client_channels = λ c. [];
  client_patterns = λ c. [];
  sent = [];
}

abbrev news : Text
news = b'n' ∷ []

nobody-IsConsistent : IsConsistent nobody
nobody-IsConsistent = record {
  channels = record { both = λ c ch. refl; once = λ c ch. omega arith; used = λ ch e. grind arith };
  patterns = record { both = λ c p. refl; once = λ c p. omega arith };
}

abbrev one_client : Pubsub
one_client = (subscribe_channel nobody 7 news).0

one_client-IsConsistent : IsConsistent one_client
one_client-IsConsistent = (subscribe_channel-IsConsistent nobody 7 news nobody-IsConsistent).0

-- A second subscription of the same client is refused.
again : (subscribe_channel one_client 7 news).1 ≡ false
unfolding subscribe_channel
again = refl

-- A message reaches both clients of the channel.
two_receivers :
    (publish_message (λ p ch. false) (subscribe_channel one_client 8 news).0 news []).1 ≡ 2
unfolding publish_message send_to_clients send_to_patterns subscribe_channel
two_receivers = refl

subscribe_channel-IsConsistent_example :
    IsConsistent (subscribe_channel one_client 8 news).0
    × (has (same_text news) ((subscribe_channel one_client 8 news).0.client_channels 8) ≡ true)
subscribe_channel-IsConsistent_example =
    subscribe_channel-IsConsistent one_client 8 news one_client-IsConsistent

unsubscribe_channel_example :
    Unsubscribed one_client 7 news (unsubscribe_channel one_client 7 news true)
unsubscribe_channel_example = unsubscribe_channel_lem one_client 7 news true one_client-IsConsistent

unsubscribe_all_channels_example :
    (s' : Pubsub) × (unsubscribe_all_channels one_client 7 true
      ≡ some (s', length (one_client.client_channels 7)))
    × IsConsistent s'
    × (s'.client_channels 7 ≡ [])
unsubscribe_all_channels_example =
    unsubscribe_all_channels_lem one_client 7 true one_client-IsConsistent

publish_message-subscribe_each_example :
    publish_message same_text (subscribe_each one_client (9 ∷ 8 ∷ []) news) news (b'm' ∷ []) ≡ (
      deliver
          (to_clients (clients_of (one_client.channels news)) news (b'm' ∷ [])
            ++ (to_clients (9 ∷ 8 ∷ []) news (b'm' ∷ [])
                ++ matching same_text one_client.patterns news (b'm' ∷ [])))
          (subscribe_each one_client (9 ∷ 8 ∷ []) news),
      length (clients_of (one_client.channels news))
          + length {A = ℕ} (9 ∷ 8 ∷ [])
          + length (matching same_text one_client.patterns news (b'm' ∷ [])),
    )
publish_message-subscribe_each_example =
    publish_message-subscribe_each same_text one_client (9 ∷ 8 ∷ []) news (b'm' ∷ [])
      (unfold subscribe_channel in refl)
