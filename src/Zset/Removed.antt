-- ===== src/Zset/Removed.antt =====
-- zslDeleteNode of redis-2.6.12/src/t_zset.c on a valid list, and then zslFreeNode.
use commit_redis.Prelude.{
  ℕ, ◌+◌, ◌-◌, ◌≤◌, ◌<◌, ◌≡◌, refl, ◌∙◌, true, false, ◌&&◌, Bool-cases, inl, inr, none, some, List,
  [], ◌∷◌, ◌++◌, ltb, leb, ◌==◌, length, length-append, arith,
}
use commit_redis.Zset.Defs.{Ptr, ZLevel, ZSkipList, ZHeap, entry, zskiplist_maxlevel}
use commit_redis.Zset.Removal.{zsl_delete_node, zsl_free_node}
use commit_redis.Zset.Cells.{Cell, next_at, NoDup, NoDup-apart, has, has-append, Row-same, Row-at}
use commit_redis.Zset.Search.{FoundFrom}
use commit_redis.Zset.Splice.{shape}
use commit_redis.Zset.Link.{Relinked}
use commit_redis.Zset.Valid.{
  IsSkipList, last_ptr, Shapes-append, Shapes-same, Heights-append, append-Heights, shape_node,
}
use commit_redis.Zset.Attach.{NoDup-cross}
use commit_redis.Zset.Insert.{apart_from}
use commit_redis.Zset.Added.{NoDup-front}
use commit_redis.Zset.Unlink.{unlink_lem}
use commit_redis.Zset.Lower.{Lowered, lower_level_lem}
use commit_redis.Zset.Join.{Joined, join_lem}

level_inside : (j n : ℕ) → j < n → (leb 0 j && ltb j (0 + n)) ≡ true
level_inside j n less = ground arith

inside_level : (j n : ℕ) → (leb 0 j && ltb j (0 + n)) ≡ true → j < n
inside_level j n e = ground arith

level_outside : (j n : ℕ) → n ≤ j → (leb 0 j && ltb j (0 + n)) ≡ false
level_outside j n le = ground arith

module _ {S : Type 0} where
  NoDup-remove :
      (xs : List (Cell S)) (z : Cell S) (ys : List (Cell S))
      → NoDup (xs ++ (z ∷ ys))
      → NoDup (xs ++ ys)
  NoDup-remove [] z ys (a, apart) = apart
  NoDup-remove (x ∷ xs) z ys (a, apart) = (
    ground (arith, has-append x.addr xs ys, has-append x.addr xs (z ∷ ys)),
    NoDup-remove xs z ys apart,
  )

  has-remove :
      (p : ℕ) (xs : List (Cell S)) (z : Cell S) (ys : List (Cell S))
      → has p (xs ++ (z ∷ ys)) ≡ false
      → has p (xs ++ ys) ≡ false
  has-remove p xs z ys out = ground (arith, has-append p xs ys, has-append p xs (z ∷ ys))

  has-both :
      (p : ℕ) (xs ys : List (Cell S))
      → has p xs ≡ false
      → has p ys ≡ false
      → has p (xs ++ ys) ≡ false
  has-both p xs ys out out' = has-append p xs ys ∙ rw out out'

  entry-free :
      (g : ZHeap S) (x p j : ℕ) → (p == x) ≡ false → entry (zsl_free_node g x) p j ≡ entry g p j
  unfolding entry
  entry-free g x p j other = rw other refl

  shape-free : (g : ZHeap S) (x p : ℕ) → (p == x) ≡ false → shape (zsl_free_node g x) p ≡ shape g p
  unfolding shape
  shape-free g x p other = rw other refl

  cell_high :
      (c : Cell S) (j : ℕ)
      → c.height ≡ zskiplist_maxlevel
      → j < zskiplist_maxlevel
      → ltb j c.height ≡ true
  cell_high c j e less = ground arith

  module _ (h g g₂ : ZHeap S) (zl : ZSkipList) (pre suf : List (Cell S)) (z : Cell S)
      (v : IsSkipList h zl (pre ++ (z ∷ suf))) (t : Ptr) (k : ℕ)
      (linked : Relinked h g 0 zl.level ((v.head ∷ pre) ++ suf))
      (joined : Joined g g₂ zl.header (pre ++ suf) t)
      (lowered : Lowered g₂ zl.header zl.level k (pre ++ suf)) where
    z_out : has z.addr ((v.head ∷ pre) ++ suf) ≡ false
    z_out =
        let (out, out') = NoDup-apart (v.head ∷ pre) z suf v.apart in
        has-both z.addr (v.head ∷ pre) suf out out'

    kept : (p : ℕ) → has p ((v.head ∷ pre) ++ suf) ≡ true → (p == z.addr) ≡ false
    kept p there = apart_from p z.addr ((v.head ∷ pre) ++ suf) z_out there

    kept_header : (zl.header == z.addr) ≡ false
    kept_header = rw v.at_head at (kept v.head.addr (first_in v.head (pre ++ suf)))
      where
        first_in : (c : Cell S) (r : List (Cell S)) → has c.addr (c ∷ r) ≡ true
        first_in c r = ground arith

    kept_cell : (p : ℕ) → has p (pre ++ suf) ≡ true → (p == z.addr) ≡ false
    kept_cell p there = kept p (behind_first v.head (pre ++ suf) there)
      where
        behind_first : (c : Cell S) (r : List (Cell S)) → has p r ≡ true → has p (c ∷ r) ≡ true
        behind_first c r e = ground arith

    unused_level :
        (j : ℕ)
        → k ≤ j
        → j < zskiplist_maxlevel
        → (l : ZLevel) × (entry (zsl_free_node g₂ z.addr) zl.header j ≡ some l) × (l.forward ≡ none)
    unused_level j le less = elim (Bool-cases (ltb j zl.level)) [
      | inl old ↦
          let (l, there, ends) = lowered.unused j le (ground arith) in
          (l, entry-free g₂ z.addr zl.header j kept_header ∙ there, ends)
      | inr above ↦
          let (l, there, ends) = v.unused j (ground arith) less in
          (
            l,
            entry-free g₂ z.addr zl.header j kept_header
                ∙ joined.entries zl.header j
                ∙ linked.same zl.header j (level_outside j zl.level (ground arith))
                ∙ there,
            ends,
          )
    ]

    pub removed :
        IsSkipList
          (zsl_free_node g₂ z.addr)
          (record { header = zl.header; tail = t; length = zl.length - 1; level = k })
          (pre ++ suf)
    removed = record {
      head = v.head;
      at_head = v.at_head;
      head_height = v.head_height;
      head_shape = (
        v.head_shape.0,
        shape-free g₂ z.addr zl.header kept_header
            ∙ joined.at_header
            ∙ linked.shapes zl.header
            ∙ v.head_shape.1,
      );
      rows = λ j less.
          Row-same g (zsl_free_node g₂ z.addr) j ((v.head ∷ pre) ++ suf)
            (linked.rows j (level_inside j zl.level (omega (arith, lowered.less))))
            (λ p there. entry-free g₂ z.addr p j (kept p there) ∙ joined.entries p j);
      unused = unused_level;
      shapes =
          Shapes-same g₂ (zsl_free_node g₂ z.addr) none (pre ++ suf) joined.shapes
            (λ p there. shape-free g₂ z.addr p (kept_cell p there));
      heights = lowered.heights;
      apart = NoDup-remove (v.head ∷ pre) z suf v.apart;
      tail = joined.tail;
      len = omega (arith, v.len, length-append pre suf, length-append pre (z ∷ suf));
      level = (lowered.some_level, omega (arith, lowered.less, v.level.1));
    }

  -- With what the search found before a node, the node is taken out of the list and freed.
  pub zsl_delete_node_lem :
      (h : ZHeap S) (zl : ZSkipList) (pre suf : List (Cell S)) (z : Cell S) (us : List (ℕ × ℕ))
      (v : IsSkipList h zl (pre ++ (z ∷ suf)))
      → FoundFrom 0 (v.head ∷ pre) us
      → length us ≡ zl.level
      → (zl' : ZSkipList) × (g : ZHeap S) × (zsl_delete_node h zl z.addr us ≡ some (zl', g))
        × IsSkipList (zsl_free_node g z.addr) zl' (pre ++ suf)
  zsl_delete_node_lem h zl pre suf z us v found len =
      let all = v.head ∷ pre in
      let (out, out') = NoDup-apart all z suf v.apart in
      let (g, runs, linked', same_z) =
        unlink_lem all suf z (NoDup-front all (z ∷ suf) v.apart) out out'
          (λ p there. later p z suf (NoDup-cross all (z ∷ suf) p v.apart there)) h 0 us found
          (λ j inside. v.rows j (omega (arith, inside_level j (length us) inside, len))) in
      let linked : Relinked h g 0 zl.level (all ++ suf) = relinked g linked' in
      let (front, (shape_z, behind)) = Shapes-append h none pre (z ∷ suf) v.shapes in
      let (front_h, (some_level, few, behind_h)) =
        Heights-append zl.level pre (z ∷ suf) v.heights in
      let heights = append-Heights zl.level pre suf front_h behind_h in
      let (n, there, e₁, e₂, back) =
        shape_node g z.addr z.score z.obj (last_ptr none pre) z.height
          (linked.shapes z.addr ∙ shape_z) in
      let at_z = same_z 0 ∙ Row-at h 0 all z suf (v.rows 0 v.level.0) (ground arith) in
      let (g₂, t, joined, runs₂) =
        join_lem h g zl pre z us n runs there back
          (Shapes-same h g none pre front (λ p is. linked.shapes p)) suf at_z
          (Shapes-same h g (some z.addr) suf behind (λ p is. linked.shapes p)) behind_h
          (NoDup-remove pre z suf v.apart.1)
          (has-remove zl.header pre z suf (rw v.at_head at v.apart.0)) v.tail in
      let (k, runs₃, lowered) =
        lower_level_lem g₂ zl.header zl.level (pre ++ suf) v.level.0 heights
          (λ j less. joined.entries zl.header j ∙ at_header g linked j less) in
      (
        record { header = zl.header; tail = t; length = zl.length - 1; level = k },
        g₂,
        runs₂ k runs₃,
        removed h g g₂ zl pre suf z v t k linked joined lowered,
      )
    where
      later : (p : ℕ) (c : Cell S) (r : List (Cell S)) → has p (c ∷ r) ≡ false → has p r ≡ false
      later p c r e = ground arith

      relinked :
          (g : ZHeap S)
          → Relinked h g 0 (length us) ((v.head ∷ pre) ++ suf)
          → Relinked h g 0 zl.level ((v.head ∷ pre) ++ suf)
      relinked g r = rw len at r

      at_header :
          (g : ZHeap S)
          → Relinked h g 0 zl.level ((v.head ∷ pre) ++ suf)
          → (j : ℕ) → j < zl.level
          → entry g zl.header j ≡ some (next_at j (pre ++ suf))
      at_header g r j less = rw v.at_head at (
          (r.rows j (level_inside j zl.level less)).0
            (cell_high v.head j v.head_height (omega (arith, v.level))))
