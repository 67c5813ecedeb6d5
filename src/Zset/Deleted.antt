-- ===== src/Zset/Deleted.antt =====
-- zslDelete of redis-2.6.12/src/t_zset.c on a list in order.
use commit_redis.Prelude.{
  ℕ, suc, ◌<◌, ◌^◌, ◌≡◌, refl, ap, ◌∙◌, Bool, true, false, Bool-cases, ◌⊎◌, inl, inr, Option, none,
  some, List, [], ◌∷◌, ◌++◌, length, arith,
}
use commit_redis.Objects.{StringObject, suits}
use commit_redis.Zset.Defs.{ZLevel, ZNode, ZSkipList, ZHeap, entry, search, first_of}
use commit_redis.Zset.Removal.{zsl_delete_node, zsl_free_node, zsl_delete}
use commit_redis.Zset.Cells.{Cell, next_at, next_at-Low}
use commit_redis.Zset.Search.{FoundFrom, Stands-entry}
use commit_redis.Zset.Valid.{
  IsSkipList, All, Shapes-append, Heights, Heights-append, shape_node, last_ptr,
}
use commit_redis.Zset.Order.{ScoreLaws, Sorted, position_of}
use commit_redis.Zset.Insert.{place_found}
use commit_redis.Zset.Removed.{zsl_delete_node_lem}
use commit_redis.Zset.Defs.{comes_before}
use commit_redis.Zset.All.{All-front, All-back}
use commit_redis.Zset.Removal.{matches}
use commit_redis.Zset.Texts.{
  comes_before-precedes, matches-is_element, All-suits, precedes, is_element,
}
use commit_redis.Zset.Element.{
  contains, delete_cell, contains-none, contains-at, All-append, delete_cell-Sorted, none_before,
  none_after,
}

module _ {S : Type 0} (below same : S → S → Bool) (score : S) (obj : StringObject) (h : ZHeap S)
    (zl : ZSkipList) (us : List (ℕ × ℕ))
    (runs : search
        (λ s o. comes_before below same s o score (some obj))
        (suc zl.length)
        h
        zl.level
        zl.header
        0
        []
      ≡ some us) where
  absent_last :
      (u : ℕ × ℕ) (l : ZLevel)
      → first_of us ≡ u
      → entry h u.0 0 ≡ some l
      → l.forward ≡ none
      → zsl_delete below same h zl score obj ≡ some (false, zl, h)
  unfolding zsl_delete
  absent_last u l first e last = rw runs (rw first (rw (e, last) refl))

  absent_next :
      (u : ℕ × ℕ) (l : ZLevel) (x : ℕ) (n : ZNode S)
      → first_of us ≡ u
      → entry h u.0 0 ≡ some l
      → l.forward ≡ some x
      → h x ≡ some n
      → matches same score obj n.score n.obj ≡ false
      → zsl_delete below same h zl score obj ≡ some (false, zl, h)
  unfolding zsl_delete
  absent_next u l x n first e next there other =
      rw runs (rw first (rw (e, next) (rw (there, other) refl)))

  present :
      (u : ℕ × ℕ) (l : ZLevel) (x : ℕ) (n : ZNode S) (zl' : ZSkipList) (g : ZHeap S)
      → first_of us ≡ u
      → entry h u.0 0 ≡ some l
      → l.forward ≡ some x
      → h x ≡ some n
      → matches same score obj n.score n.obj ≡ true
      → zsl_delete_node h zl x us ≡ some (zl', g)
      → zsl_delete below same h zl score obj ≡ some (true, zl', zsl_free_node g x)
  unfolding zsl_delete
  present u l x n zl' g first e next there is gone =
      rw runs (rw first (rw (e, next) (rw (there, is, gone) refl)))

module _ {S : Type 0} where
  pub first_behind :
      (h : ZHeap S) (zl : ZSkipList) (pre suf : List (Cell S)) (v : IsSkipList h zl (pre ++ suf))
      (us : List (ℕ × ℕ))
      → FoundFrom 0 (v.head ∷ pre) us
      → 0 < length us
      → (l : ZLevel) × (entry h (first_of us).0 0 ≡ some l) × (l.forward ≡ (next_at 0 suf).forward)
  first_behind h zl pre suf v [] found len = absurd (omega arith)
  first_behind h zl pre suf v (u ∷ us) (f, fs) len =
      let s = f.stands in
      (
        next_at 0 (s.back ++ suf),
        Stands-entry h (v.head ∷ pre) suf 0 u.0 u.1 s (v.rows 0 v.level.0),
        ap (λ l. l.forward) (next_at-Low 0 s.back suf f.low),
      )

  pub low_forward :
      (n : ℕ) (c : Cell S) (r : List (Cell S))
      → Heights n (c ∷ r)
      → (next_at 0 (c ∷ r)).forward ≡ some c.addr
  low_forward n c r (some_level, few, hs) = ground arith

  module _ (below same : S → S → Bool) (score : S) (obj : StringObject) where
    -- What zslDelete gives: whether the element was there, and the list without it.
    abbrev pub Deleted : ZHeap S → ZSkipList → List (Cell S) → Type 0
    Deleted h zl cells =
        (zl' : ZSkipList) × (h' : ZHeap S) × (zsl_delete below same h zl score obj
          ≡ some (contains same score obj cells, zl', h'))
        × IsSkipList h' zl' (delete_cell same score obj cells)
        × ((contains same score obj cells ≡ true) ⊎ ((zl' ≡ zl) × (h' ≡ h)))

    not_there :
        (h : ZHeap S) (zl : ZSkipList) (cells : List (Cell S))
        → IsSkipList h zl cells
        → All (is_element same score obj) false cells
        → zsl_delete below same h zl score obj ≡ some (false, zl, h)
        → Deleted h zl cells
    not_there h zl cells v a runs =
        let (out, rest) = contains-none same score obj cells a in
        (zl, h, rw out runs, rw rest v, inr (refl, refl))

    was_there :
        (h h' : ZHeap S) (zl zl' : ZSkipList) (pre : List (Cell S)) (z : Cell S)
        (suf : List (Cell S))
        → All (is_element same score obj) false pre
        → is_element same score obj z.score z.obj ≡ true
        → zsl_delete below same h zl score obj ≡ some (true, zl', h')
        → IsSkipList h' zl' (pre ++ suf)
        → Deleted h zl (pre ++ (z ∷ suf))
    was_there h h' zl zl' pre z suf a is runs v =
        let (there, rest) = contains-at same score obj pre z suf a is in
        (zl', h', rw there runs, rw rest v, inl there)

    delete_at :
        (laws : ScoreLaws below same) (raw : Bool) (h : ZHeap S) (zl : ZSkipList)
        (pre suf : List (Cell S))
        → IsSkipList h zl (pre ++ suf)
        → Sorted below same (pre ++ suf)
        → All (λ s o. suits raw o) true (pre ++ suf)
        → suits raw (some obj) ≡ true
        → All (λ s o. precedes below same s o score (some obj)) true pre
        → All (λ s o. precedes below same s o score (some obj)) false suf
        → Deleted h zl (pre ++ suf)
    delete_at laws raw h zl pre [] v sorted suit fits before behind =
        let agree = λ (s : S) (o : Option StringObject) (ok : suits raw o ≡ true).
          comes_before-precedes below same raw s o score (some obj) ok fits in
        let before' =
          All-suits below same raw (λ s o. comes_before below same s o score (some obj))
            (λ s o. precedes below same s o score (some obj)) true pre agree
            (All-front (λ s o. suits raw o) true pre [] suit) before in
        let (us, runs, found, len) =
          place_found (λ s o. comes_before below same s o score (some obj)) h zl pre [] v before'
            tt in
        let (l, e, next) = first_behind h zl pre [] v us found (omega (arith, len, v.level)) in
        not_there h zl (pre ++ []) v
          (All-append same (is_element same score obj) false pre []
            (none_before below same laws score obj pre before) tt)
          (absent_last below same score obj h zl us runs (first_of us) l refl e next)
    delete_at laws raw h zl pre (z ∷ suf) v sorted suit fits before (not_before, behind) =
        let agree = λ (s : S) (o : Option StringObject) (ok : suits raw o ≡ true).
          comes_before-precedes below same raw s o score (some obj) ok fits in
        let before' =
          All-suits below same raw (λ s o. comes_before below same s o score (some obj))
            (λ s o. precedes below same s o score (some obj)) true pre agree
            (All-front (λ s o. suits raw o) true pre (z ∷ suf) suit) before in
        let suit_behind = All-back (λ s o. suits raw o) true pre (z ∷ suf) suit in
        let behind' =
          All-suits below same raw (λ s o. comes_before below same s o score (some obj))
            (λ s o. precedes below same s o score (some obj)) false (z ∷ suf) agree suit_behind
            (not_before, behind) in
        let (us, runs, found, len) =
          place_found (λ s o. comes_before below same s o score (some obj)) h zl pre (z ∷ suf) v
            before' behind' in
        let (l, e, next) =
          first_behind h zl pre (z ∷ suf) v us found (omega (arith, len, v.level)) in
        let (front, (shape_z, shapes)) = Shapes-append h none pre (z ∷ suf) v.shapes in
        let (n, there, e₁, e₂, back) =
          shape_node h z.addr z.score z.obj (last_ptr none pre) z.height shape_z in
        let next_z =
          next ∙ low_forward zl.level z suf (Heights-append zl.level pre (z ∷ suf) v.heights).1 in
        let tests : matches same score obj n.score n.obj ≡ is_element same score obj z.score z.obj =
          rw (e₁, e₂)
            (matches-is_element below same raw score obj z.score z.obj fits suit_behind.0) in
        let a = none_before below same laws score obj pre before in
        elim (Bool-cases (is_element same score obj z.score z.obj)) [
          | inl is ↦
              let (zl', g, gone, v') = zsl_delete_node_lem h zl pre suf z us v found len in
              was_there h (zsl_free_node g z.addr) zl zl' pre z suf a is
                (present below same score obj h zl us runs (first_of us) l z.addr n zl' g refl e
                  next_z there (tests ∙ is) gone)
                v'
          | inr other ↦
              not_there h zl (pre ++ (z ∷ suf)) v
                (All-append same (is_element same score obj) false pre (z ∷ suf) a (
                  other,
                  none_after below same laws score obj z suf not_before
                      (sorted_first pre z suf sorted),
                ))
                (absent_next below same score obj h zl us runs (first_of us) l z.addr n refl e
                  next_z there (tests ∙ other))
        ]
      where
        sorted_first :
            (pre : List (Cell S)) (z : Cell S) (suf : List (Cell S))
            → Sorted below same (pre ++ (z ∷ suf))
            → All (λ s o. precedes below same z.score z.obj s o) true suf
        sorted_first [] z suf (first, sorted) = first
        sorted_first (c ∷ pre) z suf (first, sorted) = sorted_first pre z suf sorted

    -- On a valid skip list in order of fewer than 2 ^ 32 nodes, where all objects are raw, or no object
    -- has a zero byte in it, and the same holds of the object to delete: zslDelete runs without a fault
    -- and answers whether an element with that score and object is there. If so, the node is taken out of each level, with every pointer and
    -- span of the nodes left as the nodes behind them say, and the list is valid and in order; if not,
    -- list and heap are as they were.
    pub zsl_delete_lem :
        (laws : ScoreLaws below same) (raw : Bool) (h : ZHeap S) (zl : ZSkipList)
        (cells : List (Cell S))
        → IsSkipList h zl cells
        → Sorted below same cells
        → length cells < 2 ^ 32
        → All (λ s o. suits raw o) true cells
        → suits raw (some obj) ≡ true
        → Deleted h zl cells × Sorted below same (delete_cell same score obj cells)
    zsl_delete_lem laws raw h zl cells v sorted few suit fits =
        let p = position_of below same laws score obj cells sorted in
        (
          rw p.parts (
              delete_at laws raw h zl p.pre p.suf (rw p.parts at v) (rw p.parts at sorted)
                (rw p.parts at suit) fits p.before p.behind),
          delete_cell-Sorted below same score obj cells sorted,
        )
