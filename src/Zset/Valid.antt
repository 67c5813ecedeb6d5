-- ===== src/Zset/Valid.antt =====
-- When a heap holds a skip list of redis-2.6.12/src/t_zset.c with the given nodes in order.
use commit_redis.Prelude.{
  ℕ, ◌≤◌, ◌<◌, ◌≡◌, refl, ap, ◌∙◌, Bool, true, false, Bool-cases, Option-cases, inl, inr, Option,
  none, some, List, [], ◌∷◌, ◌++◌, ◌==◌, length, arith,
}
use commit_redis.Objects.{StringObject}
use commit_redis.Zset.Defs.{
  Ptr, ZLevel, ZNode, ZSkipList, ZHeap, zskiplist_maxlevel, entry, set_backward, write,
}
use commit_redis.Zset.Cells.{Cell, Row, Low, NoDup, has}
use commit_redis.Zset.Search.{Answers}
use commit_redis.Zset.Splice.{
  shape, shape_of, shape-write_self, shape-write_other, entry-write_self, entry-write_other,
  is_same,
}

module _ {S : Type 0} where
  -- The address of the last cell, or what is before.
  abbrev pub last_ptr : Ptr → List (Cell S) → Ptr
  last_ptr q [] = q
  last_ptr q (c ∷ r) = last_ptr (some c.addr) r

  -- Each cell is a node with what it holds, its number of levels and the pointer back.
  abbrev pub Shapes : ZHeap S → Ptr → List (Cell S) → Type 0
  Shapes h q [] = Unit {0}
  Shapes h q (c ∷ r) =
      (shape h c.addr ≡ some (c.score, c.obj, q, c.height)) × Shapes h (some c.addr) r

  -- Each cell has a level at least, and as many as the list at most.
  abbrev pub Heights : ℕ → List (Cell S) → Type 0
  Heights n [] = Unit {0}
  Heights n (c ∷ r) = (0 < c.height) × (c.height ≤ n) × Heights n r

  pub record IsSkipList (h : ZHeap S) (zl : ZSkipList) (cells : List (Cell S)) : Type 0 where
    pub head : Cell S
    pub at_head : head.addr ≡ zl.header
    pub head_height : head.height ≡ zskiplist_maxlevel
    pub head_shape :
        (q : Ptr) × (shape h zl.header ≡ some (head.score, none, q, zskiplist_maxlevel))
    pub rows : (j : ℕ) → j < zl.level → Row h j (head ∷ cells)
    pub unused :
        (j : ℕ)
        → zl.level ≤ j
        → j < zskiplist_maxlevel
        → (l : ZLevel) × (entry h zl.header j ≡ some l) × (l.forward ≡ none)
    pub shapes : Shapes h none cells
    pub heights : Heights zl.level cells
    pub apart : NoDup (head ∷ cells)
    pub tail : zl.tail ≡ last_ptr none cells
    pub len : zl.length ≡ length cells
    pub level : (0 < zl.level) × (zl.level ≤ zskiplist_maxlevel)

  pub Shapes-append :
      (h : ZHeap S) (q : Ptr) (xs ys : List (Cell S))
      → Shapes h q (xs ++ ys)
      → Shapes h q xs × Shapes h (last_ptr q xs) ys
  Shapes-append h q [] ys s = (tt, s)
  Shapes-append h q (x ∷ xs) ys (s, ss) =
      let (front, back) = Shapes-append h (some x.addr) xs ys ss in ((s, front), back)

  pub append-Shapes :
      (h : ZHeap S) (q : Ptr) (xs ys : List (Cell S))
      → Shapes h q xs
      → Shapes h (last_ptr q xs) ys
      → Shapes h q (xs ++ ys)
  append-Shapes h q [] ys s t = t
  append-Shapes h q (x ∷ xs) ys (s, ss) t = (s, append-Shapes h (some x.addr) xs ys ss t)

  pub Shapes-same :
      (h g : ZHeap S) (q : Ptr) (xs : List (Cell S))
      → Shapes h q xs
      → ((p : ℕ) → has p xs ≡ true → shape g p ≡ shape h p)
      → Shapes g q xs
  Shapes-same h g q [] s same = tt
  Shapes-same h g q (x ∷ xs) (s, ss) same = (
    same x.addr (ground arith) ∙ s,
    Shapes-same h g (some x.addr) xs ss (λ p there. same p (ground arith)),
  )

  pub Heights-more : (n m : ℕ) (xs : List (Cell S)) → n ≤ m → Heights n xs → Heights m xs
  Heights-more n m [] le hs = tt
  Heights-more n m (x ∷ xs) le (some_level, few, hs) =
      (some_level, omega arith, Heights-more n m xs le hs)

  pub Heights-Low : (n i : ℕ) (xs : List (Cell S)) → n ≤ i → Heights n xs → Low i xs
  Heights-Low n i [] le hs = tt
  Heights-Low n i (x ∷ xs) le (some_level, few, hs) = (ground arith, Heights-Low n i xs le hs)

  pub Heights-append :
      (n : ℕ) (xs ys : List (Cell S)) → Heights n (xs ++ ys) → Heights n xs × Heights n ys
  Heights-append n [] ys hs = (tt, hs)
  Heights-append n (x ∷ xs) ys (a, b, hs) =
      let (front, back) = Heights-append n xs ys hs in ((a, b, front), back)

  pub append-Heights :
      (n : ℕ) (xs ys : List (Cell S)) → Heights n xs → Heights n ys → Heights n (xs ++ ys)
  append-Heights n [] ys hs ks = ks
  append-Heights n (x ∷ xs) ys (a, b, hs) ks = (a, b, append-Heights n xs ys hs ks)

  -- A test that answers the same for each of the cells.
  abbrev pub All : (S → Option StringObject → Bool) → Bool → List (Cell S) → Type 0
  All go b [] = Unit {0}
  All go b (c ∷ r) = (go c.score c.obj ≡ b) × All go b r

  pub shape_node :
      (h : ZHeap S) (p : ℕ) (s : S) (o : Option StringObject) (q : Ptr) (k : ℕ)
      → shape h p ≡ some (s, o, q, k)
      → (n : ZNode S) × (h p ≡ some n) × (n.score ≡ s) × (n.obj ≡ o) × (n.backward ≡ q)
  unfolding shape
  shape_node h p s o q k e = elim (Option-cases (h p)) [
    | inl gone ↦ cc (rw gone at e)
    | inr (n, there) ↦
        let e' : some (shape_of n) ≡ some (s, o, q, k) = rw there at e in
        (
          n,
          there,
          ap (λ t. (elim t [ none ↦ s | some x ↦ x.0 ])) e',
          ap (λ t. (elim t [ none ↦ o | some x ↦ x.1 ])) e',
          ap (λ t. (elim t [ none ↦ q | some x ↦ x.2 ])) e',
        )
  ]

  pub Shapes-Answers :
      (go : S → Option StringObject → Bool) (b : Bool) (h : ZHeap S) (q : Ptr) (xs : List (Cell S))
      → Shapes h q xs
      → All go b xs
      → Answers go b h xs
  Shapes-Answers go b h q [] s a = tt
  Shapes-Answers go b h q (x ∷ xs) (s, ss) (a, as_all) =
      let (n, there, e, e', _) = shape_node h x.addr x.score x.obj q x.height s in
      ((n, there, rw (e, e') a), Shapes-Answers go b h (some x.addr) xs ss as_all)

  -- A write to the pointer back of a node.
  pub record Backed (h g : ZHeap S) (p : ℕ) (q : Ptr) : Type 0 where
    pub entries : (r j : ℕ) → entry g r j ≡ entry h r j
    pub others : (r : ℕ) → (r == p) ≡ false → shape g r ≡ shape h r
    pub self :
        (s : S) (o : Option StringObject) (q' : Ptr) (k : ℕ)
        → shape h p ≡ some (s, o, q', k)
        → shape g p ≡ some (s, o, q, k)

  pub set_backward_lem :
      (h : ZHeap S) (p : ℕ) (q : Ptr) (s : S) (o : Option StringObject) (q' : Ptr) (k : ℕ)
      → shape h p ≡ some (s, o, q', k)
      → (g : ZHeap S) × (set_backward h p q ≡ some g) × Backed h g p q
  unfolding set_backward entry shape
  set_backward_lem h p q s o q' k e =
      let (n, there, e₁, e₂, _) = shape_node h p s o q' k e in
      let m : ZNode S = record n { backward = q } in
      (
        write h p m,
        rw there refl,
        record {
          entries = λ r j. elim (Bool-cases (r == p)) [
            | inr other ↦ entry-write_other h p r j m other
            | inl same ↦
                let e : r ≡ p = is_same r p same in
                rw e (entry-write_self h p j m ∙ rw (there, entry) refl)
          ];
          others = λ r apart. shape-write_other h p r m apart;
          self = λ s₁ o₁ q₁ k₁ e₁. shape-write_self h p m ∙ ap with_back (rw (there, shape) at e₁);
        },
      )
    where
      with_back :
          Option (S × Option StringObject × Ptr × ℕ) → Option (S × Option StringObject × Ptr × ℕ)
      with_back t = elim t [ none ↦ none | some x ↦ some (x.0, x.1, q, x.3) ]
