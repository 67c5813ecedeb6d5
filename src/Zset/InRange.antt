-- ===== src/Zset/InRange.antt =====
-- zslIsInRange of redis-2.6.12/src/t_zset.c.
use commit_redis.Prelude.{
  ℕ, ◌≡◌, refl, ap, ◌∙◌, Bool, true, false, ◌&&◌, ltb, Bool-cases, ◌⊎◌, inl, inr, Option, none,
  some, List, [], ◌∷◌, arith,
}
use commit_redis.Objects.{StringObject}
use commit_redis.Zset.Defs.{ZLevel, ZNode, ZSkipList, ZHeap, entry}
use commit_redis.Zset.Cells.{Cell, next_at}
use commit_redis.Zset.Valid.{IsSkipList, All, shape_node, last_ptr}
use commit_redis.Zset.Order.{ScoreLaws, Sorted}
use commit_redis.Zset.Deleted.{low_forward}
use commit_redis.Zset.All.{All-map}
use commit_redis.Zset.Ends.{Ends, ends, shape_last, before_last, All-Ends}
use commit_redis.Zset.Texts.{precedes}
use commit_redis.Zset.Range.{
  ZRange, zsl_value_gte_min, zsl_value_lte_max, empty_range, zsl_is_in_range, inside, gte_min-up,
  lte_max-down, outside_empty,
}

module _ {S : Type 0} where
  module _ (below same : S → S → Bool) (h : ZHeap S) (zl : ZSkipList) (range : ZRange S) where
    empty_runs :
        empty_range below same range ≡ true → zsl_is_in_range below same h zl range ≡ some false
    unfolding zsl_is_in_range
    empty_runs e = rw e refl

    no_tail :
        empty_range below same range ≡ false
        → zl.tail ≡ none
        → zsl_is_in_range below same h zl range ≡ some false
    unfolding zsl_is_in_range
    no_tail e e₁ = rw (e, e₁) refl

    below_min :
        (x : ℕ) (n : ZNode S)
        → empty_range below same range ≡ false
        → zl.tail ≡ some x
        → h x ≡ some n
        → zsl_value_gte_min below same n.score range ≡ false
        → zsl_is_in_range below same h zl range ≡ some false
    unfolding zsl_is_in_range
    below_min x n e e₁ e₂ e₃ = rw e (rw e₁ (rw (e₂, e₃) refl))

    first_decides :
        (x y : ℕ) (n m : ZNode S) (l : ZLevel)
        → empty_range below same range ≡ false
        → zl.tail ≡ some x
        → h x ≡ some n
        → zsl_value_gte_min below same n.score range ≡ true
        → entry h zl.header 0 ≡ some l
        → l.forward ≡ some y
        → h y ≡ some m
        → zsl_is_in_range below same h zl range ≡ some (zsl_value_lte_max below same m.score range)
    unfolding zsl_is_in_range
    first_decides x y n m l e e₁ e₂ e₃ e₄ e₅ e₆ =
        rw e (rw e₁ (rw (e₂, e₃) (rw (e₄, e₅) (rw e₆ refl))))

  module _ (below same : S → S → Bool) (laws : ScoreLaws below same) (range : ZRange S) where
    pub low_outside :
        (s : S) → zsl_value_gte_min below same s range ≡ false → inside below same range s ≡ false
    low_outside s e = rw e refl

    pub high_outside :
        (s : S) → zsl_value_lte_max below same s range ≡ false → inside below same range s ≡ false
    high_outside s e = rw e (and_false (zsl_value_gte_min below same s range))
      where
        and_false : (b : Bool) → (b && false) ≡ false
        and_false true = refl
        and_false false = refl

    -- Where the last is below the minimum all are, and where the first is above the maximum.
    pub too_small :
        (front : List (Cell S)) (c : Cell S)
        → All (λ s o. precedes below same s o c.score c.obj) true front
        → zsl_value_gte_min below same c.score range ≡ false
        → All (λ s o. inside below same range s) false front
    too_small front c a e =
        All-map (λ s o. precedes below same s o c.score c.obj) (λ s o. inside below same range s)
          true false front (λ s o first. low_outside s (down s o first)) a
      where
        down :
            (s : S) (o : Option StringObject)
            → precedes below same s o c.score c.obj ≡ true
            → zsl_value_gte_min below same s range ≡ false
        down s o first = elim (Bool-cases (zsl_value_gte_min below same s range)) [
          | inr other ↦ other
          | inl is ↦ let up = gte_min-up below same laws range s o c.score c.obj first is in cc
        ]

    pub too_big :
        (c : Cell S) (r : List (Cell S))
        → All (λ s o. precedes below same c.score c.obj s o) true r
        → zsl_value_lte_max below same c.score range ≡ false
        → All (λ s o. inside below same range s) false r
    too_big c r a e =
        All-map (λ s o. precedes below same c.score c.obj s o) (λ s o. inside below same range s)
          true false r (λ s o first. high_outside s (up s o first)) a
      where
        up :
            (s : S) (o : Option StringObject)
            → precedes below same c.score c.obj s o ≡ true
            → zsl_value_lte_max below same s range ≡ false
        up s o first = elim (Bool-cases (zsl_value_lte_max below same s range)) [
          | inr other ↦ other
          | inl is ↦ let down = lte_max-down below same laws range c.score c.obj s o first is in cc
        ]

    nothing_in :
        (cells : List (Cell S))
        → empty_range below same range ≡ true
        → All (λ s o. inside below same range s) false cells
    nothing_in [] e = tt
    nothing_in (c ∷ r) e = (outside_empty below same laws range c.score e, nothing_in r e)

    -- Either no node is in the range, or the last is not below it and the first not above it.
    abbrev pub Answered : ZHeap S → ZSkipList → List (Cell S) → Type 0
    Answered h zl cells =
        ((zsl_is_in_range below same h zl range ≡ some false)
          × All (λ s o. inside below same range s) false cells)
        ⊎ ((zsl_is_in_range below same h zl range ≡ some true)
            × ((e : Ends cells) × (zsl_value_gte_min below same e.last.score range ≡ true))
            × ((c : Cell S) × (r : List (Cell S)) × (cells ≡ c ∷ r)
                × (zsl_value_lte_max below same c.score range ≡ true)))

    pub zsl_is_in_range_lem :
        (h : ZHeap S) (zl : ZSkipList) (cells : List (Cell S))
        → IsSkipList h zl cells
        → Sorted below same cells
        → Answered h zl cells
    zsl_is_in_range_lem h zl cells v sorted = elim (Bool-cases (empty_range below same range)) [
      | inl nothing ↦ inl (empty_runs below same h zl range nothing, nothing_in cells nothing)
      | inr some_range ↦ looked cells v sorted some_range
    ]
      where
        head_high : (n : ℕ) → n ≡ 32 → ltb 0 n ≡ true
        head_high n e = ground arith

        looked :
            (cells : List (Cell S))
            → IsSkipList h zl cells
            → Sorted below same cells
            → empty_range below same range ≡ false
            → Answered h zl cells
        looked [] v sorted some_range = inl (no_tail below same h zl range some_range v.tail, tt)
        looked (c ∷ r) v sorted some_range =
            let e = ends none c r in
            let shape_z = shape_last h (c ∷ r) e v.shapes in
            let (n, there, e₁, e₂, e₃) =
              shape_node h e.last.addr e.last.score e.last.obj (last_ptr none e.front) e.last.height
                shape_z in
            let (m, there', e₄, e₅, e₆) =
              shape_node h c.addr c.score c.obj none c.height v.shapes.0 in
            let tail = v.tail ∙ e.is_last in
            let score_n : zsl_value_gte_min below same n.score range
                ≡ zsl_value_gte_min below same e.last.score range =
              ap (λ s. zsl_value_gte_min below same s range) e₁ in
            let score_m : zsl_value_lte_max below same m.score range
                ≡ zsl_value_lte_max below same c.score range =
              ap (λ s. zsl_value_lte_max below same s range) e₄ in
            elim (Bool-cases (zsl_value_gte_min below same e.last.score range)) [
              | inr low ↦ inl (
                below_min below same h zl range e.last.addr n some_range tail there (score_n ∙ low),
                All-Ends (λ s o. inside below same range s) false (c ∷ r) e
                    (too_small e.front e.last (before_last below same (c ∷ r) e sorted) low)
                    (low_outside e.last.score low),
              )
              | inl reaches ↦
                  let runs =
                    first_decides below same h zl range e.last.addr c.addr n m (next_at 0 (c ∷ r))
                      some_range tail there (score_n ∙ reaches)
                      (rw v.at_head at
                        ((v.rows 0 v.level.0).0 (head_high v.head.height v.head_height)))
                      (low_forward zl.level c r v.heights) there'
                    ∙ ap some score_m in
                  elim (Bool-cases (zsl_value_lte_max below same c.score range)) [
                    | inr high ↦ inl (
                      runs ∙ ap some high,
                      (high_outside c.score high, too_big c r sorted.0 high),
                    )
                    | inl fits ↦ inr (runs ∙ ap some fits, (e, reaches), (c, r, refl, fits))
                  ]
            ]
