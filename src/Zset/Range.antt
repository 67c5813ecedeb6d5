-- ===== src/Zset/Range.antt =====
-- The ranges of scores of redis-2.6.12/src/t_zset.c.
use commit_redis.Prelude.{
  suc, ◌≡◌, refl, Bool, true, false, ◌&&◌, ◌||◌, not, Bool-cases, inl, inr, Option, none, some,
  List, [], ◌∷◌, ◌++◌, if◌then◌else◌, ◌>>=◌, arith,
}
use commit_redis.Objects.{StringObject}
use commit_redis.Zset.Defs.{Ptr, ZSkipList, ZHeap, entry, search, first_of}
use commit_redis.Zset.Cells.{Cell}
use commit_redis.Zset.Valid.{All}
use commit_redis.Zset.Texts.{precedes}
use commit_redis.Zset.Order.{ScoreLaws}

-- zrangespec
pub record ZRange (S : Type 0) : Type 0 where
  pub min : S
  pub max : S
  pub minex : Bool
  pub maxex : Bool

module _ {S : Type 0} (below same : S → S → Bool) where
  abbrev pub zsl_value_gte_min : S → ZRange S → Bool
  zsl_value_gte_min value spec =
      if spec.minex then below spec.min value else below spec.min value || same spec.min value

  abbrev pub zsl_value_lte_max : S → ZRange S → Bool
  zsl_value_lte_max value spec =
      if spec.maxex then below value spec.max else below value spec.max || same value spec.max

  -- The ranges that are always empty.
  abbrev pub empty_range : ZRange S → Bool
  empty_range range =
      below range.max range.min || (same range.min range.max && (range.minex || range.maxex))

  unfoldable pub zsl_is_in_range : ZHeap S → ZSkipList → ZRange S → Option Bool
  zsl_is_in_range h zl range =
      let looked : Option Bool = elim zl.tail [
        | none ↦ some false
        | some x ↦ do
          n ← h x
          let first : Option Bool = do
            l ← entry h zl.header 0
            elim l.forward [
              | none ↦ some false
              | some y ↦ h y >>= (λ m. some (zsl_value_lte_max m.score range))
            ]
          if zsl_value_gte_min n.score range then first else some false
      ] in
      if empty_range range then some false else looked

  -- zslFirstInRange; an assertion that does not hold is a fault.
  unfoldable pub zsl_first_in_range : ZHeap S → ZSkipList → ZRange S → Option Ptr
  zsl_first_in_range h zl range = do
    in_range ← zsl_is_in_range h zl range
    let found = do
      us ← search (λ s o. not (zsl_value_gte_min s range)) (suc zl.length) h zl.level zl.header 0 []
      l ← entry h (first_of us).0 0
      elim l.forward [
        | none ↦ none
        | some x ↦ do n ← h x; some (if zsl_value_lte_max n.score range then some x else none)
      ]
    if in_range then found else some none

  -- zslLastInRange
  unfoldable pub zsl_last_in_range : ZHeap S → ZSkipList → ZRange S → Option Ptr
  zsl_last_in_range h zl range = do
    in_range ← zsl_is_in_range h zl range
    let found = do
      us ← search (λ s o. zsl_value_lte_max s range) (suc zl.length) h zl.level zl.header 0 []
      n ← h (first_of us).0
      some (if zsl_value_gte_min n.score range then some (first_of us).0 else none)
    if in_range then found else some none

  abbrev pub inside : ZRange S → S → Bool
  inside range s = zsl_value_gte_min s range && zsl_value_lte_max s range

  -- The address of the first cell with a score in the range.
  abbrev pub first_in : ZRange S → List (Cell S) → Ptr
  first_in range [] = none
  first_in range (c ∷ r) =
      let rest = first_in range r in if inside range c.score then some c.addr else rest

  -- The address of the last one.
  abbrev pub last_in : ZRange S → Ptr → List (Cell S) → Ptr
  last_in range q [] = q
  last_in range q (c ∷ r) = last_in range (if inside range c.score then some c.addr else q) r

  pub first_in-none :
      (range : ZRange S) (xs ys : List (Cell S))
      → All (λ s o. inside range s) false xs
      → first_in range (xs ++ ys) ≡ first_in range ys
  first_in-none range [] ys a = refl
  first_in-none range (x ∷ xs) ys (e, a) = rw (e, first_in-none range xs ys a) refl

  pub last_in-none :
      (range : ZRange S) (q : Ptr) (xs : List (Cell S))
      → All (λ s o. inside range s) false xs
      → last_in range q xs ≡ q
  last_in-none range q [] a = refl
  last_in-none range q (x ∷ xs) (e, a) = rw (e, last_in-none range q xs a) refl

  pub last_in-at :
      (range : ZRange S) (q : Ptr) (xs : List (Cell S)) (c : Cell S) (ys : List (Cell S))
      → last_in range q (xs ++ (c ∷ ys))
        ≡ last_in range (if inside range c.score then some c.addr else last_in range q xs) ys
  last_in-at range q [] c ys = refl
  last_in-at range q (x ∷ xs) c ys =
      last_in-at range (if inside range x.score then some x.addr else q) xs c ys

module _ {S : Type 0} (below same : S → S → Bool) (laws : ScoreLaws below same)
    (range : ZRange S) where
  -- A score that comes behind one above the minimum is above it, and likewise below the maximum.
  pub gte_min-up :
      (s : S) (o : Option StringObject) (s' : S) (o' : Option StringObject)
      → precedes below same s o s' o' ≡ true
      → zsl_value_gte_min below same s range ≡ true
      → zsl_value_gte_min below same s' range ≡ true
  gte_min-up s none s' o' e h = cc
  gte_min-up s (some o) s' none e h = cc
  gte_min-up s (some o) s' (some o') e h = ground (
    arith,
    laws.below_trans range.min s s',
    laws.below_same range.min s s',
    laws.same_below range.min s s',
    laws.same_trans range.min s s',
  )

  pub lte_max-down :
      (s : S) (o : Option StringObject) (s' : S) (o' : Option StringObject)
      → precedes below same s o s' o' ≡ true
      → zsl_value_lte_max below same s' range ≡ true
      → zsl_value_lte_max below same s range ≡ true
  lte_max-down s none s' o' e h = cc
  lte_max-down s (some o) s' none e h = cc
  lte_max-down s (some o) s' (some o') e h = ground (
    arith,
    laws.below_trans s s' range.max,
    laws.below_same s s' range.max,
    laws.same_below s s' range.max,
    laws.same_trans s s' range.max,
  )

  -- No score is in a range that is always empty.
  pub outside_empty :
      (s : S) → empty_range below same range ≡ true → inside below same range s ≡ false
  outside_empty s e = elim (Bool-cases (inside below same range s)) [
    | inr other ↦ other
    | inl is ↦ ground (
      arith,
      laws.below_trans range.min s range.max,
      laws.below_same range.min s range.max,
      laws.same_below range.min s range.max,
      laws.same_trans range.min s range.max,
      laws.below_asym range.min range.max,
      laws.below_apart range.min range.max,
      laws.below_apart range.max range.min,
      laws.same_sym range.min range.max,
    )
  ]
