-- ===== src/Zset/Added.antt =====
-- zslInsert of redis-2.6.12/src/t_zset.c as a whole.
use commit_redis.Prelude.{
  ℕ, zero, suc, ◌+◌, ◌≤◌, ◌<◌, ◌≡◌, refl, ap, sym, ◌∙◌, Bool, true, false, ◌&&◌, none, some, List,
  [], ◌∷◌, ◌++◌, ltb, leb, ◌==◌, length-append, length-replicate, get_elem?, replicate, arith,
}
use commit_redis.Objects.{StringObject}
use commit_redis.Zset.Defs.{
  ZLevel, ZSkipList, ZHeap, zskiplist_maxlevel, entry, write, zsl_create_node,
}
use commit_redis.Zset.Cells.{Cell, Row, NoDup, has, has-append, Row-same}
use commit_redis.Zset.Splice.{
  shape, shape-write_self, shape-write_other, entry-write_self, entry-write_other,
}
use commit_redis.Zset.Link.{Relinked}
use commit_redis.Zset.Valid.{IsSkipList, last_ptr, Heights-append, append-Heights, Heights-more}
use commit_redis.Zset.Grow.{Grown}
use commit_redis.Zset.Attach.{Attached}
use commit_redis.Zset.Insert.{more_levels, new_node, apart_from}

pub get_elem?-replicate : (n j : ℕ) (l : ZLevel) → j < n → get_elem? (replicate n l) j ≡ some l
get_elem?-replicate zero j l less = absurd (omega arith)
get_elem?-replicate (suc n) zero l less = refl
get_elem?-replicate (suc n) (suc j) l less = get_elem?-replicate n j l (omega arith)

module _ {S : Type 0} where
  pub NoDup-front : (xs ys : List (Cell S)) → NoDup (xs ++ ys) → NoDup xs
  NoDup-front [] ys a = tt
  NoDup-front (x ∷ xs) ys (a, as_all) =
      (ground (arith, has-append x.addr xs ys), NoDup-front xs ys as_all)

  NoDup-insert :
      (xs : List (Cell S)) (z : Cell S) (ys : List (Cell S))
      → NoDup (xs ++ ys)
      → has z.addr (xs ++ ys) ≡ false
      → NoDup (xs ++ (z ∷ ys))
  NoDup-insert [] z ys apart out = (out, apart)
  NoDup-insert (x ∷ xs) z ys (a, apart) out = (
    ground (arith, has-append x.addr xs ys, has-append x.addr xs (z ∷ ys)),
    NoDup-insert xs z ys apart (ground arith),
  )

  pub all_fresh :
      (xs ys : List (Cell S)) (p : ℕ)
      → has p (xs ++ ys) ≡ false
      → (has p xs ≡ false) × (has p ys ≡ false)
  all_fresh xs ys p e = ground (arith, has-append p xs ys)

  -- The heap with the new node in it, which nothing points to yet.
  pub record Ready (h g : ZHeap S) (zl : ZSkipList) (v_head : Cell S) (cells : List (Cell S))
      (z : Cell S) (lev : ℕ) : Type 0 where
    pub rows : (j : ℕ) → j < lev → Row g j (v_head ∷ cells)
    pub levels : (j : ℕ) → j < z.height → (l : ZLevel) × (entry g z.addr j ≡ some l)
    pub shapes : (p : ℕ) → (p == z.addr) ≡ false → shape g p ≡ shape h p
    pub self : shape g z.addr ≡ some (z.score, z.obj, none, z.height)
    pub unused :
        (j : ℕ)
        → lev ≤ j
        → j < zskiplist_maxlevel
        → (l : ZLevel) × (entry g zl.header j ≡ some l) × (l.forward ≡ none)
    pub fresh : has z.addr (v_head ∷ cells) ≡ false

  first_apart :
      (c : Cell S) (r : List (Cell S)) (p : ℕ) → has p (c ∷ r) ≡ false → (c.addr == p) ≡ false
  first_apart c r p e = ground arith

  pub rest_apart :
      (c : Cell S) (r : List (Cell S)) (p : ℕ) → has p (c ∷ r) ≡ false → has p r ≡ false
  rest_apart c r p e = ground arith

  pub ready_lem :
      (h g : ZHeap S) (zl : ZSkipList) (cells : List (Cell S)) (n x level : ℕ) (score : S)
      (obj : StringObject) (junk : ZLevel) (v : IsSkipList h zl cells)
      → zl.level + n ≤ zskiplist_maxlevel
      → Grown h g zl zl.level n
      → h x ≡ none
      → Ready h
          (write g x (zsl_create_node junk level score (some obj)))
          zl
          v.head
          cells
          (record { addr = x; score = score; obj = some obj; height = level })
          (zl.level + n)
  ready_lem h g zl cells n x level score obj junk v room grown gone =
      let m = zsl_create_node junk level score (some obj) in
      let fresh = new_node h zl cells x v gone in
      record {
        rows = λ j less.
            Row-same g (write g x m) j (v.head ∷ cells)
              (more_levels h g zl cells n v room grown j less)
              (λ p there.
                entry-write_other g x p j m (apart_from p x (v.head ∷ cells) fresh there));
        levels = λ j less. (junk, entry-write_self g x j m ∙ get_elem?-replicate level j junk less);
        shapes = λ p other. shape-write_other g x p m other ∙ grown.shapes p;
        self =
            shape-write_self g x m
            ∙ ap (λ k. some (score, some obj, none, k)) (length-replicate level junk);
        unused = λ j le less.
            let (l, there, ends) = v.unused j (omega arith) less in
            (
              l,
              entry-write_other g x zl.header j m
                    (rw v.at_head at (first_apart v.head cells x fresh))
                  ∙ grown.same zl.header j (above (zl.header == zl.header) zl.level j n le)
                  ∙ there,
              ends,
            );
        fresh = fresh;
      }
    where
      above : (b : Bool) (i j n : ℕ) → i + n ≤ j → (b && (leb i j && ltb j (i + n))) ≡ false
      above false i j n le = refl
      above true i j n le = ground arith

  -- The list with the node linked, and then the pointers back.
  pub inserted :
      (h g₁ g₂ g₃ : ZHeap S) (zl zl' : ZSkipList) (pre suf : List (Cell S)) (z : Cell S) (lev : ℕ)
      (v : IsSkipList h zl (pre ++ suf))
      → Ready h g₁ zl v.head (pre ++ suf) z lev
      → 0 < z.height
      → z.height ≤ lev
      → zl.level ≤ lev
      → lev ≤ zskiplist_maxlevel
      → Relinked g₁ g₂ 0 lev ((v.head ∷ pre) ++ (z ∷ suf))
      → zl'.header ≡ zl.header
      → zl'.length ≡ zl.length + 1
      → zl'.level ≡ lev
      → zl'.tail ≡ last_ptr none (pre ++ (z ∷ suf))
      → Attached g₂ g₃ z.addr (pre ++ (z ∷ suf)) suf
      → IsSkipList g₃ zl' (pre ++ (z ∷ suf))
  inserted h g₁ g₂ g₃ zl zl' pre suf z lev v ready tall fits grows room linked e₁ e₂ e₃ e₄
        attached =
      let fresh = all_fresh pre suf z.addr (rest_apart v.head (pre ++ suf) z.addr ready.fresh) in
      let head_not_z = first_apart v.head (pre ++ suf) z.addr ready.fresh in
      let header_not_z : (zl.header == z.addr) ≡ false = rw v.at_head at head_not_z in
      let header_out : has zl.header (pre ++ suf) ≡ false = rw v.at_head at v.apart.0 in
      let heights = Heights-append zl.level pre suf v.heights in
      record {
        head = v.head;
        at_head = v.at_head ∙ sym e₁;
        head_height = v.head_height;
        head_shape = (
          v.head_shape.0,
          ap (shape g₃) e₁
              ∙ attached.others zl.header header_not_z (all_fresh pre suf zl.header header_out).1
              ∙ linked.shapes zl.header
              ∙ ready.shapes zl.header header_not_z
              ∙ v.head_shape.1,
        );
        rows = λ j less.
            Row-same g₂ g₃ j (v.head ∷ (pre ++ (z ∷ suf)))
              (linked.rows j (inside_all j lev (omega (arith, e₃))))
              (λ p there. attached.entries p j);
        unused = λ j le less.
            let (l, there, ends) = ready.unused j (omega (arith, e₃)) less in
            (
              l,
              ap (λ p. entry g₃ p j) e₁
                  ∙ attached.entries zl.header j
                  ∙ linked.same zl.header j (outside_all j lev (omega (arith, e₃)))
                  ∙ there,
              ends,
            );
        shapes = attached.shapes;
        heights = rw e₃ (
            append-Heights lev pre (z ∷ suf) (Heights-more zl.level lev pre grows heights.0)
              (tall, fits, Heights-more zl.level lev suf grows heights.1));
        apart = (
          head_out v.head.addr z pre suf (turned v.head.addr z.addr head_not_z) v.apart.0,
          NoDup-insert pre z suf v.apart.1 (rest_apart v.head (pre ++ suf) z.addr ready.fresh),
        );
        tail = e₄;
        len = omega (arith, e₂, v.len, length-append pre suf, length-append pre (z ∷ suf));
        level = (omega (arith, e₃, v.level.0), omega (arith, e₃));
      }
    where
      inside_all : (j k : ℕ) → j < k → (leb 0 j && ltb j (0 + k)) ≡ true
      inside_all j k less = ground arith

      outside_all : (j k : ℕ) → k ≤ j → (leb 0 j && ltb j (0 + k)) ≡ false
      outside_all j k le = ground arith

      turned : (p q : ℕ) → (p == q) ≡ false → (q == p) ≡ false
      turned p q e = ground arith

      head_out :
          (p : ℕ) (z : Cell S) (xs ys : List (Cell S))
          → (z.addr == p) ≡ false
          → has p (xs ++ ys) ≡ false
          → has p (xs ++ (z ∷ ys)) ≡ false
      head_out p z xs ys other out = ground (arith, has-append p xs ys, has-append p xs (z ∷ ys))
