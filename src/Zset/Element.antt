-- ===== src/Zset/Element.antt =====
-- The element that zslDelete and zslGetRank of redis-2.6.12/src/t_zset.c look for in a list in order.
use commit_redis.Prelude.{
  ◌≡◌, refl, Bool, true, false, ◌||◌, Bool-cases, inl, inr, Option, none, some, List, [], ◌∷◌, ◌++◌,
  if◌then◌else◌, arith,
}
use commit_redis.Objects.{Text, StringObject, text_below, same_text}
use commit_redis.Zset.Cells.{Cell}
use commit_redis.Zset.Valid.{All}
use commit_redis.Zset.Texts.{precedes, is_element}
use commit_redis.Zset.Order.{ScoreLaws, Sorted}

not_below : (s t : Text) → same_text s t ≡ true → text_below s t ≡ false
not_below [] [] e = refl
not_below [] (b ∷ t) e = cc
not_below (a ∷ s) [] e = refl
not_below (a ∷ s) (b ∷ t) e = ground (arith, not_below s t)

below_as : (s t u : Text) → same_text t u ≡ true → text_below s t ≡ true → text_below s u ≡ true
below_as s [] [] e h = h
below_as s [] (c ∷ u) e h = cc
below_as s (b ∷ t) [] e h = cc
below_as [] (b ∷ t) (c ∷ u) e h = refl
below_as (a ∷ s) (b ∷ t) (c ∷ u) e h = ground (arith, below_as s t u)

module _ {S : Type 0} (same : S → S → Bool) where
  abbrev pub contains : S → StringObject → List (Cell S) → Bool
  contains score obj [] = false
  contains score obj (c ∷ r) = is_element same score obj c.score c.obj || contains score obj r

  -- The cells without the first of that score and object.
  abbrev pub delete_cell : S → StringObject → List (Cell S) → List (Cell S)
  delete_cell score obj [] = []
  delete_cell score obj (c ∷ r) =
      let rest = delete_cell score obj r in
      if is_element same score obj c.score c.obj then r else c ∷ rest

  pub contains-none :
      (score : S) (obj : StringObject) (cells : List (Cell S))
      → All (is_element same score obj) false cells
      → (contains score obj cells ≡ false) × (delete_cell score obj cells ≡ cells)
  contains-none score obj [] a = (refl, refl)
  contains-none score obj (c ∷ r) (e, a) =
      let (out, rest) = contains-none score obj r a in (rw (e, out) refl, rw (e, rest) refl)

  pub contains-at :
      (score : S) (obj : StringObject) (pre : List (Cell S)) (z : Cell S) (suf : List (Cell S))
      → All (is_element same score obj) false pre
      → is_element same score obj z.score z.obj ≡ true
      → (contains score obj (pre ++ (z ∷ suf)) ≡ true)
        × (delete_cell score obj (pre ++ (z ∷ suf)) ≡ pre ++ suf)
  contains-at score obj [] z suf a e = (rw e refl, rw e refl)
  contains-at score obj (c ∷ pre) z suf (d, a) e =
      let (is, rest) = contains-at score obj pre z suf a e in (rw (d, is) refl, rw (d, rest) refl)

  pub All-append :
      (go : S → Option StringObject → Bool) (b : Bool) (xs ys : List (Cell S))
      → All go b xs
      → All go b ys
      → All go b (xs ++ ys)
  All-append go b [] ys a a' = a'
  All-append go b (x ∷ xs) ys (e, a) a' = (e, All-append go b xs ys a a')

  All-delete_cell :
      (go : S → Option StringObject → Bool) (score : S) (obj : StringObject) (cells : List (Cell S))
      → All go true cells
      → All go true (delete_cell score obj cells)
  All-delete_cell go score obj [] a = tt
  All-delete_cell go score obj (c ∷ r) (e, a) =
      elim (Bool-cases (is_element same score obj c.score c.obj)) [
        | inl here ↦ rw here a
        | inr other ↦ rw other (e, All-delete_cell go score obj r a)
      ]

module _ {S : Type 0} (below same : S → S → Bool) where
  pub delete_cell-Sorted :
      (score : S) (obj : StringObject) (cells : List (Cell S))
      → Sorted below same cells
      → Sorted below same (delete_cell same score obj cells)
  delete_cell-Sorted score obj [] sorted = tt
  delete_cell-Sorted score obj (c ∷ r) (first, sorted) =
      elim (Bool-cases (is_element same score obj c.score c.obj)) [
        | inl here ↦ rw here sorted
        | inr other ↦ rw other (
          All-delete_cell same (λ s o. precedes below same c.score c.obj s o) score obj r first,
          delete_cell-Sorted score obj r sorted,
        )
      ]

module _ {S : Type 0} (below same : S → S → Bool) (laws : ScoreLaws below same) (score : S)
    (obj : StringObject) where
  -- What comes before the element is not the element.
  pub not_element :
      (s : S) (o : Option StringObject)
      → precedes below same s o score (some obj) ≡ true
      → is_element same score obj s o ≡ false
  unfolding is_element
  not_element s none e = refl
  not_element s (some o) e = elim (Bool-cases (is_element same score obj s (some o))) [
    | inr other ↦ other
    | inl is ↦ ground (arith, laws.below_apart s score, not_below o.text obj.text)
  ]

  pub none_before :
      (pre : List (Cell S))
      → All (λ s o. precedes below same s o score (some obj)) true pre
      → All (is_element same score obj) false pre
  none_before [] a = tt
  none_before (c ∷ r) (e, a) = (not_element c.score c.obj e, none_before r a)

  -- What comes before a node that is the element comes before the element.
  pub before_element :
      (s : S) (o : Option StringObject) (s' : S) (o' : Option StringObject)
      → precedes below same s o s' o' ≡ true
      → is_element same score obj s' o' ≡ true
      → precedes below same s o score (some obj) ≡ true
  unfolding is_element
  before_element s none s' o' e is = cc
  before_element s (some o) s' none e is = cc
  before_element s (some o) s' (some o') e is = ground (
    arith,
    laws.below_same s s' score,
    laws.same_trans s s' score,
    laws.same_sym score s',
    below_as o.text o'.text obj.text,
  )

  pub none_after :
      (c : Cell S) (r : List (Cell S))
      → precedes below same c.score c.obj score (some obj) ≡ false
      → All (λ s o. precedes below same c.score c.obj s o) true r
      → All (is_element same score obj) false r
  none_after c [] e a = tt
  none_after c (d ∷ r) e (first, a) = (
    (elim (Bool-cases (is_element same score obj d.score d.obj)) [
      | inr other ↦ other
      | inl is ↦ let h = before_element c.score c.obj d.score d.obj first is in cc
    ]),
    none_after c r e a,
  )
