-- ===== src/Pubsub/Publish.antt =====
-- pubsub.c: who receives a published message.
use commit_redis.Prelude.{
  ℕ, ◌≡◌, refl, Bool, Bool-cases, inl, inr, List, [], ◌∷◌, ◌++◌, map, length, length-map,
  length-append, if◌then◌else◌,
}
use commit_redis.Objects.{Text}
use commit_redis.Sides.Defs.{clients_of}
use commit_redis.Pubsub.Defs.{
  Pubsub, PubsubPattern, Notice, message, pmessage, add_reply, send_to_clients, send_to_patterns,
  publish_message,
}

-- Notices put in front of those that were sent, one after the other.
abbrev pub deliver : List (ℕ × Notice) → Pubsub → Pubsub
deliver [] s = s
deliver ((c, n) ∷ ns) s = deliver ns (add_reply s c n)

-- The notices of the patterns that a channel matches.
abbrev pub matching : (Text → Text → Bool) → List PubsubPattern → Text → Text → List (ℕ × Notice)
matching glob [] ch m = []
matching glob ((c, p) ∷ ps) ch m =
    if glob p ch then (c, pmessage p ch m) ∷ matching glob ps ch m else matching glob ps ch m

abbrev pub to_clients : List ℕ → Text → Text → List (ℕ × Notice)
to_clients cs ch m = map (λ c. (c, message ch m)) cs

send_to_clients_lem :
    (s : Pubsub) (cs : List ℕ) (ch m : Text)
    → send_to_clients s cs ch m ≡ (deliver (to_clients cs ch m) s, length cs)
unfolding send_to_clients
send_to_clients_lem s [] ch m = refl
send_to_clients_lem s (c ∷ cs) ch m =
    rw (send_to_clients_lem (add_reply s c (message ch m)) cs ch m) refl

send_to_patterns_lem :
    (glob : Text → Text → Bool) (s : Pubsub) (ps : List PubsubPattern) (ch m : Text)
    → send_to_patterns glob s ps ch m
      ≡ (deliver (matching glob ps ch m) s, length (matching glob ps ch m))
unfolding send_to_patterns
send_to_patterns_lem glob s [] ch m = refl
send_to_patterns_lem glob s ((c, p) ∷ ps) ch m = elim (Bool-cases (glob p ch)) [
  | inl e ↦ rw (e, send_to_patterns_lem glob (add_reply s c (pmessage p ch m)) ps ch m) refl
  | inr e ↦ rw (e, send_to_patterns_lem glob s ps ch m) refl
]

patterns-deliver : (ns : List (ℕ × Notice)) (s : Pubsub) → (deliver ns s).patterns ≡ s.patterns
patterns-deliver [] s = refl
patterns-deliver ((c, n) ∷ ns) s = patterns-deliver ns (add_reply s c n)

deliver-append :
    (ns ms : List (ℕ × Notice)) (s : Pubsub) → deliver (ns ++ ms) s ≡ deliver ms (deliver ns s)
deliver-append [] ms s = refl
deliver-append ((c, n) ∷ ns) ms s = deliver-append ns ms (add_reply s c n)

-- A published message changes nothing but what is sent: the clients in the list of the channel receive
-- it, in the order of the list, then the client of each pattern that matches, and the number of
-- receivers is the number of notices.
pub publish_message_lem :
    (glob : Text → Text → Bool) (s : Pubsub) (ch m : Text)
    → publish_message glob s ch m ≡ (
      deliver (to_clients (clients_of (s.channels ch)) ch m ++ matching glob s.patterns ch m) s,
      length (to_clients (clients_of (s.channels ch)) ch m ++ matching glob s.patterns ch m),
    )
unfolding publish_message
publish_message_lem glob s ch m =
    let cs = clients_of (s.channels ch) in
    let ns = to_clients cs ch m in
    rw
      (
        send_to_clients_lem s cs ch m,
        patterns-deliver ns s,
        send_to_patterns_lem glob (deliver ns s) s.patterns ch m,
        deliver-append ns (matching glob s.patterns ch m) s,
        length-append ns (matching glob s.patterns ch m),
        length-map {B = ℕ × Notice} cs (λ c. (c, message ch m)),
      )
      refl
