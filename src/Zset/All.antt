-- ===== src/Zset/All.antt =====
-- A test of the nodes of a skip list of redis-2.6.12/src/t_zset.c that answers the same for all.
use commit_redis.Prelude.{◌≡◌, Bool, Option, List, [], ◌∷◌, ◌++◌}
use commit_redis.Objects.{StringObject}
use commit_redis.Zset.Cells.{Cell}
use commit_redis.Zset.Valid.{All}

module _ {S : Type 0} where
  pub All-at :
      (go : S → Option StringObject → Bool) (b : Bool) (xs : List (Cell S)) (c : Cell S)
      (r : List (Cell S))
      → All go b (xs ++ (c ∷ r))
      → go c.score c.obj ≡ b
  All-at go b [] c r a = a.0
  All-at go b (x ∷ xs) c r a = All-at go b xs c r a.1

  pub All-map :
      (go go' : S → Option StringObject → Bool) (b b' : Bool) (xs : List (Cell S))
      → ((s : S) (o : Option StringObject) → go s o ≡ b → go' s o ≡ b')
      → All go b xs
      → All go' b' xs
  All-map go go' b b' [] f a = tt
  All-map go go' b b' (x ∷ xs) f (e, a) = (f x.score x.obj e, All-map go go' b b' xs f a)

  pub All-front :
      (go : S → Option StringObject → Bool) (b : Bool) (xs ys : List (Cell S))
      → All go b (xs ++ ys)
      → All go b xs
  All-front go b [] ys a = tt
  All-front go b (x ∷ xs) ys (e, a) = (e, All-front go b xs ys a)

  pub All-back :
      (go : S → Option StringObject → Bool) (b : Bool) (xs ys : List (Cell S))
      → All go b (xs ++ ys)
      → All go b ys
  All-back go b [] ys a = a
  All-back go b (x ∷ xs) ys (e, a) = All-back go b xs ys a
