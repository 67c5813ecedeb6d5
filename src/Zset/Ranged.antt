-- ===== src/Zset/Ranged.antt =====
-- zslFirstInRange of redis-2.6.12/src/t_zset.c.
use commit_redis.Prelude.{
  ℕ, suc, ◌≡◌, refl, ap, sym, ◌∙◌, Bool, true, false, not, Bool-cases, inl, inr, Option, none, some,
  List, [], ◌∷◌, ◌++◌, if◌then◌else◌, arith,
}
use commit_redis.Objects.{StringObject}
use commit_redis.Zset.Defs.{ZLevel, ZNode, ZSkipList, ZHeap, entry, search, first_of}
use commit_redis.Zset.Cells.{Cell}
use commit_redis.Zset.Valid.{IsSkipList, All, Shapes-append, Heights-append, shape_node, last_ptr}
use commit_redis.Zset.Order.{ScoreLaws, Sorted}
use commit_redis.Zset.Insert.{place_found}
use commit_redis.Zset.Cut.{split_test}
use commit_redis.Zset.Element.{All-append}
use commit_redis.Zset.Deleted.{first_behind, low_forward}
use commit_redis.Zset.Range.{
  ZRange, zsl_value_gte_min, zsl_value_lte_max, zsl_is_in_range, zsl_first_in_range, inside,
  first_in, first_in-none, gte_min-up,
}
use commit_redis.Zset.All.{All-at, All-map}
use commit_redis.Zset.Texts.{precedes}
use commit_redis.Zset.InRange.{too_big, zsl_is_in_range_lem}

module _ {S : Type 0} (below same : S → S → Bool) (h : ZHeap S) (zl : ZSkipList)
    (range : ZRange S) where
  first_out :
      zsl_is_in_range below same h zl range ≡ some false
      → zsl_first_in_range below same h zl range ≡ some none
  unfolding zsl_first_in_range
  first_out e = rw e refl

  first_runs :
      (us : List (ℕ × ℕ)) (u : ℕ × ℕ) (l : ZLevel) (x : ℕ) (n : ZNode S)
      → zsl_is_in_range below same h zl range ≡ some true
      → search
          (λ s o. not (zsl_value_gte_min below same s range))
          (suc zl.length)
          h
          zl.level
          zl.header
          0
          []
        ≡ some us
      → first_of us ≡ u
      → entry h u.0 0 ≡ some l
      → l.forward ≡ some x
      → h x ≡ some n
      → zsl_first_in_range below same h zl range
        ≡ some (if zsl_value_lte_max below same n.score range then some x else none)
  unfolding zsl_first_in_range
  first_runs us u l x n e e₁ e₂ e₃ e₄ e₅ = rw e (rw e₁ (rw e₂ (rw (e₃, e₄) (rw e₅ refl))))

module _ {S : Type 0} (below same : S → S → Bool) (laws : ScoreLaws below same)
    (range : ZRange S) where
  abbrev gte : S → Bool
  gte s = zsl_value_gte_min below same s range

  abbrev lte : S → Bool
  lte s = zsl_value_lte_max below same s range

  was_true : (b : Bool) → not b ≡ false → b ≡ true
  was_true true e = refl
  was_true false e = cc

  was_false : (b : Bool) → not b ≡ true → b ≡ false
  was_false true e = cc
  was_false false e = refl

  gte-down :
      (s : S) (o : Option StringObject) (s' : S) (o' : Option StringObject)
      → precedes below same s o s' o' ≡ true
      → not (gte s') ≡ true
      → not (gte s) ≡ true
  gte-down s o s' o' first e = elim (Bool-cases (gte s)) [
    | inr other ↦ rw other refl
    | inl is ↦
        let up = gte_min-up below same laws range s o s' o' first is in
        let no_up = was_false (gte s') e in cc
  ]

  low_out : (s : S) → not (gte s) ≡ true → inside below same range s ≡ false
  low_out s e = rw (was_false (gte s) e) refl

  behind_cell :
      (xs : List (Cell S)) (c : Cell S) (r : List (Cell S))
      → Sorted below same (xs ++ (c ∷ r))
      → All (λ s o. precedes below same c.score c.obj s o) true r
  behind_cell [] c r (first, sorted) = first
  behind_cell (x ∷ xs) c r (first, sorted) = behind_cell xs c r sorted

  first_at :
      (h : ZHeap S) (zl : ZSkipList) (pre suf : List (Cell S))
      → IsSkipList h zl (pre ++ suf)
      → Sorted below same (pre ++ suf)
      → All (λ s o. not (gte s)) true pre
      → All (λ s o. not (gte s)) false suf
      → zsl_is_in_range below same h zl range ≡ some true
      → (front : List (Cell S)) (z : Cell S) → pre ++ suf ≡ front ++ (z ∷ [])
      → gte z.score ≡ true
      → zsl_first_in_range below same h zl range ≡ some (first_in below same range (pre ++ suf))
  first_at h zl pre [] v sorted before behind in_range front z parts reaches =
      let low =
        All-at (λ s o. not (gte s)) true front z []
          (rw parts at (All-append same (λ s o. not (gte s)) true pre [] before tt)) in
      let gone = was_false (gte z.score) low in cc
  first_at h zl pre (c ∷ r) v sorted before (reaches_c, behind) in_range front z parts reaches =
      let go : S → Option StringObject → Bool = λ s o. not (gte s) in
      let (us, runs, found, len) = place_found go h zl pre (c ∷ r) v before (reaches_c, behind) in
      let (l, e, next) = first_behind h zl pre (c ∷ r) v us found (omega (arith, len, v.level)) in
      let (shape_c, shapes) = (Shapes-append h none pre (c ∷ r) v.shapes).1 in
      let (n, there, e₁, e₂, e₃) =
        shape_node h c.addr c.score c.obj (last_ptr none pre) c.height shape_c in
      let next_c =
        next ∙ low_forward zl.level c r (Heights-append zl.level pre (c ∷ r) v.heights).1 in
      let answer =
        first_runs below same h zl range us (first_of us) l c.addr n in_range runs refl e next_c
          there
        ∙ ap (λ s. some (if lte s then some c.addr else none)) e₁ in
      let skipped = first_in-none below same range pre (c ∷ r) (
        All-map (λ s o. not (gte s)) (λ s o. inside below same range s) true false pre
          (λ s o. low_out s) before) in
      elim (Bool-cases (lte c.score)) [
        | inl fits ↦ answer ∙ rw (skipped, was_true (gte c.score) reaches_c, fits) refl
        | inr high ↦
            let none_left =
              first_in-none below same range r []
                (too_big below same laws range c r (behind_cell pre c r sorted) high) in
            answer
            ∙ rw (skipped, was_true (gte c.score) reaches_c, high)
                (ap some (sym none_left ∙ ap (first_in below same range) (append_nil r)))
      ]
    where
      append_nil : (xs : List (Cell S)) → xs ++ [] ≡ xs
      append_nil [] = refl
      append_nil (x ∷ xs) = ap (λ l. x ∷ l) (append_nil xs)

  -- On a valid skip list in order zslFirstInRange runs without a fault and gives the first node whose
  -- score is in the range, or NULL when there is none.
  pub zsl_first_in_range_lem :
      (h : ZHeap S) (zl : ZSkipList) (cells : List (Cell S))
      → IsSkipList h zl cells
      → Sorted below same cells
      → zsl_first_in_range below same h zl range ≡ some (first_in below same range cells)
  zsl_first_in_range_lem h zl cells v sorted =
      elim (zsl_is_in_range_lem below same laws range h zl cells v sorted) [
        | inl (out, nothing) ↦
            first_out below same h zl range out ∙ ap some (sym (first_in-all cells nothing))
        | inr (in_range, (e, reaches), (c, r, is_cons, fits)) ↦
            let cut = split_test below same (λ s o. not (gte s)) gte-down cells sorted in
            rw cut.parts (
              first_at h zl cut.pre cut.suf (rw cut.parts at v) (rw cut.parts at sorted) cut.before
                cut.behind in_range e.front e.last (sym (cut.parts) ∙ e.parts) reaches)
      ]
    where
      first_in-all :
          (xs : List (Cell S))
          → All (λ s o. inside below same range s) false xs
          → first_in below same range xs ≡ none
      first_in-all [] a = refl
      first_in-all (x ∷ xs) (e, a) = rw (e, first_in-all xs a) refl
