-- ===== src/Zset/LastRange.antt =====
-- zslLastInRange of redis-2.6.12/src/t_zset.c.
use mathlib.Core.List.{append_assoc}
use commit_redis.Prelude.{
  ℕ, suc, ◌<◌, ◌≡◌, refl, ap, sym, ◌∙◌, Bool, true, false, Bool-cases, inl, inr, Option, none, some,
  List, [], ◌∷◌, ◌++◌, ◌==◌, if◌then◌else◌, length, arith,
}
use commit_redis.Objects.{StringObject}
use commit_redis.Zset.Defs.{ZNode, ZSkipList, ZHeap, search, first_of}
use commit_redis.Zset.Cells.{Cell}
use commit_redis.Zset.Valid.{IsSkipList, All, Shapes-append, Heights-append, shape_node, last_ptr}
use commit_redis.Zset.Order.{ScoreLaws, Sorted}
use commit_redis.Zset.Search.{FoundFrom}
use commit_redis.Zset.Insert.{place_found}
use commit_redis.Zset.Added.{NoDup-front}
use commit_redis.Zset.Inserted.{first_found}
use commit_redis.Zset.Cut.{split_test, before_cell}
use commit_redis.Zset.Range.{
  ZRange, zsl_value_gte_min, zsl_value_lte_max, zsl_is_in_range, zsl_last_in_range, inside, last_in,
  last_in-none, last_in-at, lte_max-down,
}
use commit_redis.Zset.All.{All-at, All-map}
use commit_redis.Zset.Ends.{Ends, ends, shape_last}
use commit_redis.Zset.InRange.{high_outside, too_small, zsl_is_in_range_lem}

module _ {S : Type 0} (below same : S → S → Bool) (h : ZHeap S) (zl : ZSkipList)
    (range : ZRange S) where
  last_out :
      zsl_is_in_range below same h zl range ≡ some false
      → zsl_last_in_range below same h zl range ≡ some none
  unfolding zsl_last_in_range
  last_out e = rw e refl

  last_runs :
      (us : List (ℕ × ℕ)) (u : ℕ × ℕ) (n : ZNode S)
      → zsl_is_in_range below same h zl range ≡ some true
      → search
          (λ s o. zsl_value_lte_max below same s range)
          (suc zl.length)
          h
          zl.level
          zl.header
          0
          []
        ≡ some us
      → first_of us ≡ u
      → h u.0 ≡ some n
      → zsl_last_in_range below same h zl range
        ≡ some (if zsl_value_gte_min below same n.score range then some u.0 else none)
  unfolding zsl_last_in_range
  last_runs us u n e e₁ e₂ e₃ = rw e (rw e₁ (rw e₂ (rw e₃ refl)))

module _ {S : Type 0} (below same : S → S → Bool) (laws : ScoreLaws below same)
    (range : ZRange S) where
  abbrev gte : S → Bool
  gte s = zsl_value_gte_min below same s range

  abbrev lte : S → Bool
  lte s = zsl_value_lte_max below same s range

  -- The node that the search for the last one ends at.
  last_found :
      (h : ZHeap S) (zl : ZSkipList) (pre suf : List (Cell S)) (v : IsSkipList h zl (pre ++ suf))
      (us : List (ℕ × ℕ))
      → FoundFrom 0 (v.head ∷ pre) us
      → 0 < length us
      → (e : Ends pre) → (first_of us).0 ≡ e.last.addr
  last_found h zl pre suf v us found len e =
      let last =
        first_found v.head pre zl.level us found len (Heights-append zl.level pre suf v.heights).0
          (NoDup-front (v.head ∷ pre) suf v.apart) in
      pointer ((first_of us).0 == v.head.addr) (first_of us).0 e.last.addr (last.back ∙ e.is_last)
    where
      pointer : (b : Bool) (u x : ℕ) → (if b then none else some u) ≡ some x → u ≡ x
      pointer true u x e = cc
      pointer false u x e = cc

  last_in-last :
      (cells : List (Cell S)) (pre suf : List (Cell S)) (e : Ends pre)
      → cells ≡ pre ++ suf
      → Sorted below same cells
      → All (λ s o. lte s) true pre
      → All (λ s o. lte s) false suf
      → last_in below same range none cells ≡ (if gte e.last.score then some e.last.addr else none)
  last_in-last cells pre suf e parts sorted before behind =
      let whole : cells ≡ e.front ++ (e.last ∷ suf) =
        parts ∙ ap (λ l. l ++ suf) e.parts ∙ append_assoc e.front (e.last ∷ []) suf in
      let none_behind =
        All-map (λ s o. lte s) (λ s o. inside below same range s) false false suf
          (λ s o. high_outside below same laws range s) behind in
      let fits = All-at (λ s o. lte s) true e.front e.last [] (rw e.parts at before) in
      ap (last_in below same range none) whole
      ∙ last_in-at below same range none e.front e.last suf
      ∙ last_in-none below same range _ suf none_behind
      ∙ (elim (Bool-cases (gte e.last.score)) [
        | inl is ↦ rw (is, fits) refl
        | inr low ↦ rw low (
            last_in-none below same range none e.front (
              too_small below same laws range e.front e.last
                (before_cell below same e.front e.last suf (rw whole at sorted)) low))
      ])

  last_at :
      (h : ZHeap S) (zl : ZSkipList) (pre suf : List (Cell S))
      → IsSkipList h zl (pre ++ suf)
      → Sorted below same (pre ++ suf)
      → All (λ s o. lte s) true pre
      → All (λ s o. lte s) false suf
      → zsl_is_in_range below same h zl range ≡ some true
      → (c : Cell S) (r : List (Cell S)) → pre ++ suf ≡ c ∷ r
      → lte c.score ≡ true
      → zsl_last_in_range below same h zl range ≡ some (last_in below same range none (pre ++ suf))
  last_at h zl [] [] v sorted before behind in_range c r parts fits = cc
  last_at h zl [] (d ∷ suf) v sorted before (high, behind) in_range c r parts fits =
      let first : d ≡ c = cc in let high' : lte c.score ≡ false = rw first at high in cc
  last_at h zl (d ∷ pre) suf v sorted before behind in_range c r parts fits =
      let go : S → Option StringObject → Bool = λ s o. lte s in
      let e = ends none d pre in
      let (us, runs, found, len) = place_found go h zl (d ∷ pre) suf v before behind in
      let at_last = last_found h zl (d ∷ pre) suf v us found (omega (arith, len, v.level)) e in
      let (n, there, e₁, e₂, e₃) =
        shape_node h e.last.addr e.last.score e.last.obj (last_ptr none e.front) e.last.height
          (shape_last h (d ∷ pre) e (Shapes-append h none (d ∷ pre) suf v.shapes).0) in
      last_runs below same h zl range us (first_of us) n in_range runs refl (ap h at_last ∙ there)
      ∙ ap (λ s. some (if gte s then some (first_of us).0 else none)) e₁
      ∙ ap (λ p. some (if gte e.last.score then some p else none)) at_last
      ∙ ap some (sym (last_in-last ((d ∷ pre) ++ suf) (d ∷ pre) suf e refl sorted before behind))

  -- On a valid skip list in order zslLastInRange runs without a fault and gives the last node whose
  -- score is in the range, or NULL when there is none.
  pub zsl_last_in_range_lem :
      (h : ZHeap S) (zl : ZSkipList) (cells : List (Cell S))
      → IsSkipList h zl cells
      → Sorted below same cells
      → zsl_last_in_range below same h zl range ≡ some (last_in below same range none cells)
  zsl_last_in_range_lem h zl cells v sorted =
      elim (zsl_is_in_range_lem below same laws range h zl cells v sorted) [
        | inl (out, nothing) ↦
            last_out below same h zl range out
            ∙ ap some (sym (last_in-none below same range none cells nothing))
        | inr (in_range, (e, reaches), (c, r, is_cons, fits)) ↦
            let cut =
              split_test below same (λ s o. lte s) (lte_max-down below same laws range) cells
                sorted in
            rw cut.parts (
              last_at h zl cut.pre cut.suf (rw cut.parts at v) (rw cut.parts at sorted) cut.before
                cut.behind in_range c r (sym (cut.parts) ∙ is_cons) fits)
      ]
