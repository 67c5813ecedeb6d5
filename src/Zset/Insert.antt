-- ===== src/Zset/Insert.antt =====
-- zslInsert of redis-2.6.12/src/t_zset.c.
use commit_redis.Prelude.{
  ℕ, suc, ◌+◌, ◌≤◌, ◌<◌, ◌≡◌, refl, ap, sym, ◌∙◌, Bool, true, false, ◌&&◌, Bool-cases, inl, inr,
  Option, none, some, List, [], ◌∷◌, ◌++◌, ltb, leb, ◌==◌, if◌then◌else◌, length, length-append,
  arith,
}
use commit_redis.Objects.{StringObject}
use commit_redis.Zset.Defs.{Ptr, ZSkipList, ZHeap, zskiplist_maxlevel, search}
use commit_redis.Zset.Cells.{Cell, Row, Low, NoDup, has, has-append, Row-same}
use commit_redis.Zset.Search.{Found, FoundFrom, search_lem}
use commit_redis.Zset.Splice.{shape, is_same}
use commit_redis.Zset.Valid.{
  IsSkipList, last_ptr, Shapes, Heights, All, Shapes-append, Shapes-Answers, Heights-append,
  Heights-Low,
}
use commit_redis.Zset.Grow.{Grown, next_at-none, Row-none}
use commit_redis.Zset.Attach.{last_ptr-append}

module _ {S : Type 0} where
  -- The search for the place on the levels that the list has.
  pub place_found :
      (go : S → Option StringObject → Bool) (h : ZHeap S) (zl : ZSkipList) (pre suf : List (Cell S))
      (v : IsSkipList h zl (pre ++ suf))
      → All go true pre
      → All go false suf
      → (us : List (ℕ × ℕ)) × (search go (suc zl.length) h zl.level zl.header 0 [] ≡ some us)
        × FoundFrom 0 (v.head ∷ pre) us
        × (length us ≡ zl.level)
  place_found go h zl pre suf v before behind =
      let (front, back) = Shapes-append h none pre suf v.shapes in
      let (us, runs, found, len) =
        search_lem go h v.head pre suf (Shapes-Answers go true h none pre front before)
          (Shapes-Answers go false h (last_ptr none pre) suf back behind) (suc zl.length) zl.level
          zl.header 0 [] (omega (arith, v.len, length-append pre suf)) v.rows
          (λ i less. record {
            front = [];
            cell = v.head;
            back = pre;
            parts = refl;
            here = sym v.at_head;
            high = at_top i v.head.height v.head_height (omega (arith, v.level));
            counts = refl;
          })
          tt in
      (us, runs, found, omega (arith, len))
    where
      at_top : (i n : ℕ) → n ≡ 32 → i < 32 → ltb i n ≡ true
      at_top i n e less = ground arith

  -- With the levels that the new node needs, the header has rows on all of them.
  pub more_levels :
      (h g : ZHeap S) (zl : ZSkipList) (cells : List (Cell S)) (n : ℕ) (v : IsSkipList h zl cells)
      → zl.level + n ≤ zskiplist_maxlevel
      → Grown h g zl zl.level n
      → (j : ℕ) → j < zl.level + n
      → Row g j (v.head ∷ cells)
  more_levels h g zl cells n v room grown j less = elim (Bool-cases (ltb j zl.level)) [
    | inl old ↦
        Row-same h g j (v.head ∷ cells) (v.rows j (ground arith))
          (λ p there. grown.same p j (below_level (p == zl.header) zl.level j n old))
    | inr new ↦
        let low = Heights-Low zl.level j cells (ground arith) v.heights in
        (
          (λ high. rw v.at_head (
              grown.new j (ground arith)
              ∙ ap (λ k. some (record { forward = none; span = k })) v.len
              ∙ ap some (sym (next_at-none j cells low)))),
          Row-none g j cells low,
        )
  ]
    where
      below_level :
          (b : Bool) (i j n : ℕ) → ltb j i ≡ true → (b && (leb i j && ltb j (i + n))) ≡ false
      below_level false i j n e = refl
      below_level true i j n e = ground arith

  Shapes-fresh :
      (h : ZHeap S) (q : Ptr) (p : ℕ) (xs : List (Cell S))
      → shape h p ≡ none
      → Shapes h q xs
      → has p xs ≡ false
  Shapes-fresh h q p [] gone s = refl
  Shapes-fresh h q p (x ∷ xs) gone (s, ss) = elim (Bool-cases (x.addr == p)) [
    | inl same ↦ let e : x.addr ≡ p = is_same x.addr p same in cc
    | inr other ↦ rw other (Shapes-fresh h (some x.addr) p xs gone ss)
  ]

  unused_address : (h : ZHeap S) (p : ℕ) → h p ≡ none → shape h p ≡ none
  unfolding shape
  unused_address h p gone = rw gone refl

  pub apart_from :
      (p a : ℕ) (xs : List (Cell S)) → has a xs ≡ false → has p xs ≡ true → (p == a) ≡ false
  apart_from p a xs out there = elim (Bool-cases (p == a)) [
    | inr other ↦ other
    | inl same ↦ let e : p ≡ a = is_same p a same in cc
  ]

  -- A new node is no node of the list.
  pub new_node :
      (h : ZHeap S) (zl : ZSkipList) (cells : List (Cell S)) (x : ℕ) (v : IsSkipList h zl cells)
      → h x ≡ none
      → has x (v.head ∷ cells) ≡ false
  new_node h zl cells x v gone =
      let gone' : shape h x ≡ none = unused_address h x gone in
      let not_head : (v.head.addr == x) ≡ false = elim (Bool-cases (v.head.addr == x)) [
        | inr other ↦ other
        | inl same ↦
            let e : zl.header ≡ x = sym v.at_head ∙ is_same v.head.addr x same in
            let there = v.head_shape.1 in cc
      ] in
      rw not_head (Shapes-fresh h none x cells gone' v.shapes)

  -- The last node before the place, which level 0 gives.
  pub record LastBefore (head : Cell S) (pre : List (Cell S)) (u r : ℕ) : Type 0 where
    pub back : (if u == head.addr then none else some u) ≡ last_ptr none pre
    pub rank : r + 1 ≡ length (head ∷ pre)

  pub no_level_0 : (n : ℕ) (xs : List (Cell S)) → Heights n xs → Low 0 xs → xs ≡ []
  no_level_0 n [] hs low = refl
  no_level_0 n (x ∷ xs) (some_level, few, hs) (short, low) = absurd (ground arith)

  last_at :
      (head : Cell S) (pre : List (Cell S)) (n u r : ℕ) (front : List (Cell S)) (cell : Cell S)
      (back : List (Cell S))
      → head ∷ pre ≡ front ++ (cell ∷ back)
      → u ≡ cell.addr
      → r ≡ length front
      → Low 0 back
      → Heights n pre
      → NoDup (head ∷ pre)
      → LastBefore head pre u r
  last_at head pre n u r [] cell back e here counts low heights apart =
      let same : pre ≡ back = cc in
      let first : head ≡ cell = cc in
      let empty : pre ≡ [] = no_level_0 n pre heights (rw same low) in
      let at : u ≡ head.addr = here ∙ ap (λ c. c.addr) (sym first) in
      let is : (head.addr == head.addr) ≡ true = ground arith in
      rw (at, empty) (record { back = rw is refl; rank = omega (arith, counts) })
  last_at head pre n u r (x ∷ front) cell back e here counts low heights apart =
      let same : pre ≡ front ++ (cell ∷ back) = cc in
      let heights' = (Heights-append n front (cell ∷ back) (rw same at heights)).1 in
      let empty : back ≡ [] = no_level_0 n back heights'.2 low in
      let there : has u pre ≡ true =
        ap (has u) same
        ∙ has-append u front (cell ∷ back)
        ∙ in_front (has u front) (rw here (is_refl cell.addr)) in
      record {
        back = rw (apart_from u head.addr pre apart.0 there) (
            ap some here
            ∙ sym (
                ap (last_ptr none) same
                ∙ last_ptr-append none front (cell ∷ back)
                ∙ ap (last_ptr (some cell.addr)) empty));
        rank =
            omega
              (arith, counts, ap length same, length-append front (cell ∷ back), ap length empty);
      }
    where
      is_refl : (p : ℕ) → (p == p) ≡ true
      is_refl p = ground arith

      in_front :
          (b : Bool)
          → (cell.addr == u) ≡ true
          → (if b then true else if cell.addr == u then true else has u back) ≡ true
      in_front true h = refl
      in_front false h = rw h refl

  pub last_before :
      (head : Cell S) (pre : List (Cell S)) (n u r : ℕ)
      → Found 0 (head ∷ pre) u r
      → Heights n pre
      → NoDup (head ∷ pre)
      → LastBefore head pre u r
  last_before head pre n u r f heights apart =
      let s = f.stands in
      last_at head pre n u r s.front s.cell s.back s.parts s.here s.counts f.low heights apart
