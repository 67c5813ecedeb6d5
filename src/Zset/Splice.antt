-- ===== src/Zset/Splice.antt =====
-- What a write to a level of a node does, and what it takes to put other cells behind a place.
use mathlib.Core.List.{append_assoc}
use commit_redis.Prelude.{
  ℕ, zero, suc, ◌<◌, ◌≡◌, ◌≢◌, refl, ap, ◌∙◌, true, false, ◌&&◌, Bool-cases, Option-cases, inl, inr,
  Option, some, List, [], ◌∷◌, ◌++◌, ◌>>=◌, ◌==◌, length, length-set, get_elem?, set,
  get_elem?-set_self, get_elem?-set_ne, arith,
}
use commit_redis.Objects.{StringObject}
use commit_redis.Zset.Defs.{Ptr, ZLevel, ZNode, ZHeap, entry, set_entry, write}
use commit_redis.Zset.Cells.{
  Cell, next_at, Row, NoDup, has, Row-cut, Low-Row, NoDup-apart, has-append,
}
use commit_redis.Zset.Search.{Found}

self_is : (p : ℕ) → (p == p) ≡ true
self_is p = ground arith

get_elem?_bound : (xs : List ZLevel) (i : ℕ) (l : ZLevel) → get_elem? xs i ≡ some l → i < length xs
get_elem?_bound [] i l e = cc
get_elem?_bound (x ∷ xs) zero l e = omega arith
get_elem?_bound (x ∷ xs) (suc i) l e = omega (arith, get_elem?_bound xs i l e)

pub is_same : (p q : ℕ) → (p == q) ≡ true → p ≡ q
is_same p q e = ground arith

module _ {S : Type 0} where
  -- What a node holds beside its levels, and how many it has.
  abbrev pub shape_of : ZNode S → S × Option StringObject × Ptr × ℕ
  shape_of n = (n.score, n.obj, n.backward, length n.level)

  unfoldable pub shape : ZHeap S → ℕ → Option (S × Option StringObject × Ptr × ℕ)
  shape h p = do n ← h p; some (shape_of n)

  -- One level of one node is written, and all else stays.
  pub record Wrote (h g : ZHeap S) (p i : ℕ) (l : ZLevel) : Type 0 where
    pub self : entry g p i ≡ some l
    pub others : (q j : ℕ) → ((q == p) && (j == i)) ≡ false → entry g q j ≡ entry h q j
    pub shapes : (q : ℕ) → shape g q ≡ shape h q

  pub entry-write_self :
      (h : ZHeap S) (p j : ℕ) (m : ZNode S) → entry (write h p m) p j ≡ get_elem? m.level j
  unfolding entry
  entry-write_self h p j m = rw (self_is p) refl

  pub entry-write_other :
      (h : ZHeap S) (p q j : ℕ) (m : ZNode S)
      → (q == p) ≡ false
      → entry (write h p m) q j ≡ entry h q j
  unfolding entry
  entry-write_other h p q j m apart = rw apart refl

  pub shape-write_self :
      (h : ZHeap S) (p : ℕ) (m : ZNode S) → shape (write h p m) p ≡ some (shape_of m)
  unfolding shape
  shape-write_self h p m = rw (self_is p) refl

  pub shape-write_other :
      (h : ZHeap S) (p q : ℕ) (m : ZNode S) → (q == p) ≡ false → shape (write h p m) q ≡ shape h q
  unfolding shape
  shape-write_other h p q m apart = rw apart refl

  pub set_entry_lem :
      (h : ZHeap S) (p i : ℕ) (old l : ZLevel)
      → entry h p i ≡ some old
      → (g : ZHeap S) × (set_entry h p i l ≡ some g) × Wrote h g p i l
  unfolding set_entry entry shape
  set_entry_lem h p i old l e = elim (Option-cases (h p)) [
    | inl gone ↦ cc (rw gone at e)
    | inr (n, there) ↦
        let was : get_elem? n.level i ≡ some old = rw there at e in
        let m : ZNode S = record n { level = set n.level i l } in
        (
          write h p m,
          rw (there, was) refl,
          record {
            self =
                entry-write_self h p i m
                ∙ get_elem?-set_self n.level i l (get_elem?_bound n.level i old was);
            others = λ q j apart. elim (Bool-cases (q == p)) [
              | inr other ↦ entry-write_other h p q j m other
              | inl same ↦
                  let at_p : q ≡ p = is_same q p same in
                  rw at_p (
                    entry-write_self h p j m
                    ∙ get_elem?-set_ne n.level l (not_same i j (rw same at apart))
                    ∙ rw (there, entry) refl)
            ];
            shapes = λ q. elim (Bool-cases (q == p)) [
              | inr other ↦ shape-write_other h p q m other
              | inl same ↦
                  let at_p : q ≡ p = is_same q p same in
                  rw at_p (
                    shape-write_self h p m
                    ∙ ap (λ k. some (n.score, n.obj, n.backward, k)) (length-set n.level i l)
                    ∙ rw (there, shape) refl)
            ];
          },
        )
  ]
    where
      not_same : (i j : ℕ) → (j == i) ≡ false → i ≢ j
      not_same i j e same = ground arith

  not_here : (p u : ℕ) (xs : List (Cell S)) → has p xs ≡ true → has u xs ≡ false → (p == u) ≡ false
  not_here p u xs there apart = elim (Bool-cases (p == u)) [
    | inr other ↦ other
    | inl same ↦ let e : p ≡ u = is_same p u same in cc
  ]

  -- Other cells behind a place, on one level: the node before the place points to what is new.
  pub Row-splice :
      (h g : ZHeap S) (i u r : ℕ) (all old new : List (Cell S)) (f : Found i all u r)
      → NoDup all
      → Row h i (all ++ old)
      → ((p : ℕ) → has p all ≡ true → (p == u) ≡ false → entry g p i ≡ entry h p i)
      → entry g u i ≡ some (next_at i (f.stands.back ++ new))
      → Row g i new
      → Row g i (all ++ new)
  Row-splice h g i u r all old new f apart row same at_u row' =
      let s = f.stands in
      let (before, behind) = NoDup-apart s.front s.cell s.back (rw s.parts at apart) in
      let e : (ys : List (Cell S)) → all ++ ys ≡ s.front ++ (s.cell ∷ (s.back ++ ys)) =
        λ ys. ap (λ l. l ++ ys) s.parts ∙ append_assoc s.front (s.cell ∷ s.back) ys in
      rw (e new) (
        Row-cut h g i s.front s.cell (s.back ++ old) (s.back ++ new) s.high (rw (e old) at row)
          (λ p there.
            same p (ap (has p) s.parts ∙ has-append p s.front (s.cell ∷ s.back) ∙ rw there refl)
              (not_here p u s.front there (rw s.here before)))
          ((λ high. rw s.here at at_u), Low-Row g i s.back new f.low row'))
