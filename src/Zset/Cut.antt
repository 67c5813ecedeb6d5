-- ===== src/Zset/Cut.antt =====
-- Where a test that a search of redis-2.6.12/src/t_zset.c makes changes its answer in a list in order.
use commit_redis.Prelude.{
  ◌≡◌, refl, ap, Bool, true, false, Bool-cases, inl, inr, Option, List, [], ◌∷◌, ◌++◌,
}
use commit_redis.Objects.{StringObject}
use commit_redis.Zset.Cells.{Cell}
use commit_redis.Zset.Valid.{All}
use commit_redis.Zset.Texts.{precedes}
use commit_redis.Zset.Order.{Sorted}

module _ {S : Type 0} (below same : S → S → Bool) where
  -- The cells for which the test is true, and then those for which it is false.
  pub record Cut (go : S → Option StringObject → Bool) (cells : List (Cell S)) : Type 0 where
    pub pre : List (Cell S)
    pub suf : List (Cell S)
    pub parts : cells ≡ pre ++ suf
    pub before : All go true pre
    pub behind : All go false suf

  module _ (go : S → Option StringObject → Bool)
      (down : (s : S) (o : Option StringObject) (s' : S) (o' : Option StringObject)
        → precedes below same s o s' o' ≡ true
        → go s' o' ≡ true
        → go s o ≡ true) where
    none_behind :
        (c : Cell S) (r : List (Cell S))
        → go c.score c.obj ≡ false
        → All (λ s o. precedes below same c.score c.obj s o) true r
        → All go false r
    none_behind c [] e a = tt
    none_behind c (d ∷ r) e (first, a) = (
      (elim (Bool-cases (go d.score d.obj)) [
        | inr other ↦ other
        | inl goes ↦ let h = down c.score c.obj d.score d.obj first goes in cc
      ]),
      none_behind c r e a,
    )

    pub split_test : (cells : List (Cell S)) → Sorted below same cells → Cut go cells
    split_test [] sorted = record { pre = []; suf = []; parts = refl; before = tt; behind = tt }
    split_test (c ∷ r) (first, sorted) = elim (Bool-cases (go c.score c.obj)) [
      | inl goes ↦
          let p = split_test r sorted in
          record {
            pre = c ∷ p.pre;
            suf = p.suf;
            parts = ap (λ l. c ∷ l) p.parts;
            before = (goes, p.before);
            behind = p.behind;
          }
      | inr stops ↦ record {
        pre = [];
        suf = c ∷ r;
        parts = refl;
        before = tt;
        behind = (stops, none_behind c r stops first);
      }
    ]

  pub before_cell :
      (xs : List (Cell S)) (c : Cell S) (r : List (Cell S))
      → Sorted below same (xs ++ (c ∷ r))
      → All (λ s o. precedes below same s o c.score c.obj) true xs
  before_cell [] c r sorted = tt
  before_cell (x ∷ xs) c r (first, sorted) = (at xs first, before_cell xs c r sorted)
    where
      at :
          (xs : List (Cell S))
          → All (λ s o. precedes below same x.score x.obj s o) true (xs ++ (c ∷ r))
          → precedes below same x.score x.obj c.score c.obj ≡ true
      at [] (e, a) = e
      at (y ∷ ys) (e, a) = at ys a
