-- ===== src/Zset/GetRank.antt =====
-- The tests of zslGetRank of redis-2.6.12/src/t_zset.c.
use commit_redis.Prelude.{
  ℕ, suc, ◌+◌, ◌≡◌, refl, Bool, true, false, ◌||◌, not, Bool-cases, inl, inr, Option, none, some,
  List, [], ◌∷◌, ◌++◌, if◌then◌else◌, length, arith,
}
use commit_redis.Objects.{Text, StringObject, text_below, same_text, same_text→eq}
use commit_redis.Zset.Cells.{Cell}
use commit_redis.Zset.Valid.{All}
use commit_redis.Zset.Texts.{precedes, is_element, holds, reaches}
use commit_redis.Zset.Order.{ScoreLaws}

module _ {S : Type 0} (same : S → S → Bool) where
  -- The place of the element counted from `k` on, or 0.
  abbrev pub rank_of : S → StringObject → ℕ → List (Cell S) → ℕ
  rank_of score obj k [] = 0
  rank_of score obj k (c ∷ r) =
      let rest = rank_of score obj (suc k) r in
      if is_element same score obj c.score c.obj then k else rest

  -- An object that is the one asked for has the score asked for.
  abbrev pub one_score : S → StringObject → S → Option StringObject → Bool
  one_score score obj s o = not (holds obj o) || same score s

  pub rank_of-none :
      (score : S) (obj : StringObject) (k : ℕ) (cells : List (Cell S))
      → All (is_element same score obj) false cells
      → rank_of score obj k cells ≡ 0
  rank_of-none score obj k [] a = refl
  rank_of-none score obj k (c ∷ r) (e, a) = rw (e, rank_of-none score obj (suc k) r a) refl

  pub rank_of-at :
      (score : S) (obj : StringObject) (k : ℕ) (pre : List (Cell S)) (z : Cell S)
      (suf : List (Cell S))
      → All (is_element same score obj) false pre
      → is_element same score obj z.score z.obj ≡ true
      → rank_of score obj k (pre ++ (z ∷ suf)) ≡ k + length pre
  rank_of-at score obj k [] z suf a is = rw is (omega arith)
  rank_of-at score obj k (c ∷ pre) z suf (e, a) is =
      rw (e, rank_of-at score obj (suc k) pre z suf a is) (omega arith)

module _ {S : Type 0} (below same : S → S → Bool) (laws : ScoreLaws below same) (score : S)
    (obj : StringObject) where
  pub element_of :
      (s : S) (o : Option StringObject)
      → one_score same score obj s o ≡ true
      → holds obj o ≡ true
      → is_element same score obj s o ≡ true
  unfolding is_element holds
  element_of s none one e = cc
  element_of s (some o) one e = ground (arith, laws.same_sym score s)

  pub no_element :
      (s : S) (o : Option StringObject)
      → holds obj o ≡ false
      → is_element same score obj s o ≡ false
  unfolding is_element holds
  no_element s none e = refl
  no_element s (some o) e = ground arith

  pub element_reaches :
      (s : S) (o : Option StringObject)
      → reaches below same s o score obj ≡ false
      → is_element same score obj s o ≡ false
  unfolding is_element
  element_reaches s none e = refl
  element_reaches s (some o) e = elim (Bool-cases (is_element same score obj s (some o))) [
    | inr other ↦ other
    | inl is ↦ ground (arith, not_above o.text obj.text, laws.same_sym score s)
  ]
    where
      not_above : (s t : Text) → same_text s t ≡ true → text_below t s ≡ false
      not_above [] [] e = refl
      not_above [] (b ∷ t) e = cc
      not_above (a ∷ s) [] e = cc
      not_above (a ∷ s) (b ∷ t) e = ground (arith, not_above s t)

  -- No element comes before a node that the search still reaches.
  pub no_later :
      (s : S) (o : Option StringObject) (s' : S) (o' : Option StringObject)
      → precedes below same s o s' o' ≡ true
      → reaches below same s' o' score obj ≡ true
      → is_element same score obj s o ≡ false
  unfolding is_element
  no_later s none s' o' first e = refl
  no_later s (some o) s' none first e = cc
  no_later s (some o) s' (some o') first e =
      elim (Bool-cases (is_element same score obj s (some o))) [
        | inr other ↦ other
        | inl is ↦ ground (
          arith,
          laws.same_sym s score,
          laws.same_below score s s',
          laws.below_asym s' score,
          laws.below_apart score s',
          laws.below_apart s' score,
          laws.same_trans score s s',
          first_as o.text obj.text o'.text,
        )
      ]
    where
      first_as :
          (t u w : Text) → same_text t u ≡ true → text_below t w ≡ true → text_below u w ≡ true
      first_as t u w e h = rw (same_text→eq t u e) at h
