-- ===== src/Zset/RankOf.antt =====
-- zslGetRank of redis-2.6.12/src/t_zset.c.
use mathlib.Core.List.{append_assoc}
use commit_redis.Prelude.{
  ℕ, zero, suc, ◌+◌, ◌<◌, ◌≡◌, refl, ap, sym, ◌∙◌, Bool, true, false, Bool-cases, inl, inr, Option,
  none, some, List, [], ◌∷◌, ◌++◌, ltb, length, length-append, arith,
}
use commit_redis.Objects.{StringObject, suits}
use commit_redis.Zset.Defs.{ZNode, ZSkipList, ZHeap, walk}
use commit_redis.Zset.Lookup.{find_element, zsl_get_rank}
use commit_redis.Zset.Cells.{Cell, Row, Low}
use commit_redis.Zset.Search.{Stands, walk_lem, Stands-lower, behind_head}
use commit_redis.Zset.Valid.{
  IsSkipList, All, Shapes-append, Shapes-Answers, Heights-append, shape_node, last_ptr,
}
use commit_redis.Zset.Insert.{no_level_0}
use commit_redis.Zset.Order.{ScoreLaws, Sorted}
use commit_redis.Zset.Cut.{split_test, before_cell}
use commit_redis.Zset.Element.{not_element, before_element, All-append}
use commit_redis.Zset.All.{All-front, All-back, All-at, All-map}
use commit_redis.Zset.Strings.{text_below_trans}
use commit_redis.Zset.Lookup.{reaches_object, has_object}
use commit_redis.Zset.Texts.{
  reaches_object-reaches, has_object-holds, All-suits, precedes, is_element, reaches,
}
use commit_redis.Zset.GetRank.{
  rank_of, one_score, rank_of-none, rank_of-at, element_of, no_element, element_reaches, no_later,
}

one_more : (n : ℕ) → 1 + n ≡ suc n
one_more n = omega arith

module _ {S : Type 0} where
  found_element :
      (go : S → Option StringObject → Bool) (obj : StringObject) (fuel : ℕ) (h : ZHeap S)
      (i x rank u r : ℕ) (n : ZNode S)
      → walk go fuel h i x rank ≡ some (u, r)
      → h u ≡ some n
      → has_object obj n.obj ≡ true
      → find_element go obj fuel h (suc i) x rank ≡ some r
  unfolding find_element
  found_element go obj fuel h i x rank u r n e there is = rw e (rw (there, is) refl)

  next_element :
      (go : S → Option StringObject → Bool) (obj : StringObject) (fuel : ℕ) (h : ZHeap S)
      (i x rank u r k : ℕ) (n : ZNode S)
      → walk go fuel h i x rank ≡ some (u, r)
      → h u ≡ some n
      → has_object obj n.obj ≡ false
      → find_element go obj fuel h i u r ≡ some k
      → find_element go obj fuel h (suc i) x rank ≡ some k
  unfolding find_element
  next_element go obj fuel h i x rank u r k n e there other runs = rw e (rw (there, other) runs)

  module _ (below same : S → S → Bool) (laws : ScoreLaws below same) (score : S)
      (obj : StringObject) (h : ZHeap S) (zl : ZSkipList) (pre suf : List (Cell S))
      (v : IsSkipList h zl (pre ++ suf)) (sorted : Sorted below same (pre ++ suf))
      (before : All (λ s o. reaches below same s o score obj) true pre)
      (behind : All (λ s o. reaches below same s o score obj) false suf)
      (ones : All (one_score same score obj) true (pre ++ suf)) (raw : Bool)
      (suit : All (λ s o. suits raw o) true (pre ++ suf)) (fits : suits raw (some obj) ≡ true) where
    -- What the node at which a walk ends says about the place of the element.
    abbrev Tells : ℕ → ℕ → List (Cell S) → Type 0
    Tells u r back =
        (n : ZNode S) × (h u ≡ some n)
        × (has_object obj n.obj ≡ true → rank_of same score obj 1 (pre ++ suf) ≡ r)
        × (has_object obj n.obj ≡ false
            → Low 0 back
            → All (is_element same score obj) false (pre ++ suf))

    none_behind : All (is_element same score obj) false suf
    none_behind =
        All-map (λ s o. reaches below same s o score obj) (is_element same score obj) false false
          suf (element_reaches below same laws score obj) behind

    at_header : (u : ℕ) (back : List (Cell S)) → u ≡ zl.header → pre ≡ back → Tells u 0 back
    unfolding has_object
    at_header u back e same_back =
        let (n, there, e₁, e₂, e₃) =
          shape_node h zl.header v.head.score none v.head_shape.0 32 v.head_shape.1 in
        (
          n,
          ap h e ∙ there,
          λ is. cc (rw e₂ at is),
          λ other low.
              let empty : pre ≡ [] =
                no_level_0 zl.level pre (Heights-append zl.level pre suf v.heights).0
                  (rw same_back low) in
              rw empty none_behind,
        )

    at_cell :
        (front : List (Cell S)) (c : Cell S) (back : List (Cell S)) (u : ℕ)
        → u ≡ c.addr
        → pre ≡ front ++ (c ∷ back)
        → Tells u (suc (length front)) back
    at_cell front c back u e parts =
        let shapes = (Shapes-append h none pre suf v.shapes).0 in
        let (shape_c, rest) = (Shapes-append h none front (c ∷ back) (rw parts at shapes)).1 in
        let (n, there, e₁, e₂, e₃) =
          shape_node h c.addr c.score c.obj (last_ptr none front) c.height shape_c in
        let whole : pre ++ suf ≡ front ++ (c ∷ (back ++ suf)) =
          ap (λ l. l ++ suf) parts ∙ append_assoc front (c ∷ back) suf in
        let firsts = before_cell below same front c (back ++ suf) (rw whole at sorted) in
        let suit_c = All-at (λ s o. suits raw o) true front c (back ++ suf) (rw whole at suit) in
        let agree = has_object-holds raw obj c.obj fits suit_c in
        (
          n,
          ap h e ∙ there,
          λ is.
              let c_is =
                element_of below same laws score obj c.score c.obj
                  (All-at (one_score same score obj) true front c (back ++ suf) (rw whole at ones))
                  (sym agree ∙ (rw e₂ at is)) in
              ap (rank_of same score obj 1) whole
              ∙ rank_of-at same score obj 1 front c (back ++ suf)
                  (All-map (λ s o. precedes below same s o c.score c.obj)
                    (is_element same score obj) true false front
                    (λ s o first.
                      not_element below same laws score obj s o
                        (before_element below same laws score obj s o c.score c.obj first c_is))
                    firsts)
                  c_is
              ∙ one_more (length front),
          λ other low.
              let empty : back ≡ [] =
                no_level_0 zl.level back
                  (Heights-append zl.level front (c ∷ back)
                    (rw parts at ((Heights-append zl.level pre suf v.heights).0))).1.2
                  low in
              let reached =
                All-at (λ s o. reaches below same s o score obj) true front c back
                  (rw parts at before) in
              rw (whole, empty)
                (All-append same (is_element same score obj) false front (c ∷ suf)
                  (All-map (λ s o. precedes below same s o c.score c.obj)
                    (is_element same score obj) true false front
                    (λ s o first.
                      no_later below same laws score obj s o c.score c.obj first reached)
                    firsts)
                  (
                    no_element below same laws score obj c.score c.obj
                        (sym agree ∙ (rw e₂ at other)),
                    none_behind,
                  )),
        )

    tells : (i u r : ℕ) (s : Stands i (v.head ∷ pre) u r) → Tells u r s.back
    tells i u r s = at s.front s.cell s.back s.parts s.here s.counts
      where
        at :
            (front : List (Cell S)) (c : Cell S) (back : List (Cell S))
            → v.head ∷ pre ≡ front ++ (c ∷ back)
            → u ≡ c.addr
            → r ≡ length front
            → Tells u r back
        at [] c back parts here counts =
            let first : v.head ≡ c = cc in
            let same_back : pre ≡ back = cc in
            rw counts (at_header u back (here ∙ ap (λ d. d.addr) (sym first) ∙ v.at_head) same_back)
        at (f ∷ front) c back parts here counts =
            let same_back : pre ≡ front ++ (c ∷ back) = cc in
            rw counts (at_cell front c back u here same_back)

    find_element_lem :
        (fuel n x rank : ℕ)
        → length pre < fuel
        → ((i : ℕ) → i < n → Row h i ((v.head ∷ pre) ++ suf))
        → ((i : ℕ) → i < n → Stands i (v.head ∷ pre) x rank)
        → (n ≡ 0 → All (is_element same score obj) false (pre ++ suf))
        → find_element (λ s o. reaches_object below same s o score obj) obj fuel h n x rank
          ≡ some (rank_of same score obj 1 (pre ++ suf))
    unfolding find_element
    find_element_lem fuel zero x rank room rows stands at_end =
        ap some (sym (rank_of-none same score obj 1 (pre ++ suf) (at_end refl)))
    find_element_lem fuel (suc n) x rank room rows stands at_end =
        let go : S → Option StringObject → Bool = λ s o. reaches_object below same s o score obj in
        let (front, back) = Shapes-append h none pre suf v.shapes in
        let agree = λ (s : S) (o : Option StringObject) (ok : suits raw o ≡ true).
          reaches_object-reaches below same raw s o score obj ok fits in
        let before' =
          All-suits below same raw go (λ s o. reaches below same s o score obj) true pre agree
            (All-front (λ s o. suits raw o) true pre suf suit) before in
        let behind' =
          All-suits below same raw go (λ s o. reaches below same s o score obj) false suf agree
            (All-back (λ s o. suits raw o) true pre suf suit) behind in
        let goes = Shapes-Answers go true h none pre front before' in
        let stop = Shapes-Answers go false h (last_ptr none pre) suf back behind' in
        let s = stands n (omega arith) in
        let (goes', short) =
          behind_head go h v.head pre suf goes stop s.front s.cell s.back s.parts in
        let (u, r, runs, found) =
          walk_lem go h (v.head ∷ pre) suf stop fuel n x rank s goes' (omega arith)
            (rows n (omega arith)) in
        let (nd, there, tells_true, tells_false) = tells n u r found.stands in
        elim (Bool-cases (has_object obj nd.obj)) [
          | inl is ↦
              found_element go obj fuel h n x rank u r nd runs there is
              ∙ ap some (sym (tells_true is))
          | inr other ↦
              next_element go obj fuel h n x rank u r (rank_of same score obj 1 (pre ++ suf)) nd
                runs there other
                (find_element_lem fuel n u r room (λ i less. rows i (omega arith))
                  (λ i less. Stands-lower n i (v.head ∷ pre) u r (omega arith) found.stands)
                  (λ e. tells_false other (low_at n 0 found.stands.back e found.low)))
        ]
      where
        low_at : (i j : ℕ) (xs : List (Cell S)) → i ≡ j → Low i xs → Low j xs
        low_at i j xs e low = rw e at low

  reaches_down :
      (below same : S → S → Bool) (laws : ScoreLaws below same) (score : S) (obj : StringObject)
      (s : S) (o : Option StringObject) (s' : S) (o' : Option StringObject)
      → precedes below same s o s' o' ≡ true
      → reaches below same s' o' score obj ≡ true
      → reaches below same s o score obj ≡ true
  reaches_down below same laws score obj s none s' o' first e = cc
  reaches_down below same laws score obj s (some o) s' none first e = cc
  reaches_down below same laws score obj s (some o) s' (some o') first e = ground (
    arith,
    laws.below_trans s s' score,
    laws.same_below s s' score,
    laws.below_same s s' score,
    laws.same_trans s s' score,
    text_below_trans obj.text o.text o'.text,
  )

  -- On a valid skip list in order, in which each node with the given object has the given score,
  -- and where all objects are raw, or none has a zero byte in it, the given one included: zslGetRank runs without a fault and gives the place of the element, counted from 1, or 0 when it is
  -- not in the list.
  pub zsl_get_rank_lem :
      (below same : S → S → Bool) (laws : ScoreLaws below same) (h : ZHeap S) (zl : ZSkipList)
      (cells : List (Cell S)) (score : S) (obj : StringObject) (raw : Bool)
      → IsSkipList h zl cells
      → Sorted below same cells
      → All (one_score same score obj) true cells
      → All (λ s o. suits raw o) true cells
      → suits raw (some obj) ≡ true
      → zsl_get_rank below same h zl score obj ≡ some (rank_of same score obj 1 cells)
  unfolding zsl_get_rank
  zsl_get_rank_lem below same laws h zl cells score obj raw valid sorted ones suit fits =
      let cut =
        split_test below same (λ s o. reaches below same s o score obj)
          (reaches_down below same laws score obj) cells sorted in
      let v : IsSkipList h zl (cut.pre ++ cut.suf) = rw cut.parts at valid in
      rw cut.parts (
        find_element_lem below same laws score obj h zl cut.pre cut.suf v (rw cut.parts at sorted)
          cut.before cut.behind (rw cut.parts at ones) raw (rw cut.parts at suit) fits
          (suc zl.length) zl.level zl.header 0 (omega (arith, v.len, length-append cut.pre cut.suf))
          v.rows
          (λ i less. record {
            front = [];
            cell = v.head;
            back = cut.pre;
            parts = refl;
            here = sym v.at_head;
            high = at_top i v.head.height v.head_height (omega (arith, v.level));
            counts = refl;
          })
          (λ e. absurd (omega (arith, v.level))))
    where
      at_top : (i n : ℕ) → n ≡ 32 → i < 32 → ltb i n ≡ true
      at_top i n e less = ground arith
