-- ===== src/Adlist/Delete.antt =====
-- listDelNode takes one node out of the list and gives it back.
use commit_redis.Prelude.{
  ℕ, ◌≡◌, refl, sym, ◌∙◌, false, Option, none, some, [], ◌∷◌, ◌++◌, length-append, arith,
}
use commit_redis.Adlist.Defs.{Ptr, node, Heap, DList, write, list_del_node}
use commit_redis.Adlist.Linked.{
  Cells, has, first, final, IsList, SameOutside, Linked-same, Linked-write, Linked-append,
  Linked-front, Linked-back, has-append, final-append,
}
use commit_redis.Adlist.Relink.{NoDup-parts, NoDup-join, relink_next_lem, relink_prev_lem}

module _ {V : Type 0} where
  head_without :
      (ys zs : Cells V) (p : ℕ) (v : V) (head : Ptr)
      → head ≡ first (ys ++ ((p, v) ∷ zs)) none
      → ◌≡◌ {A = Ptr}
          (elim (final ys none) [ none ↦ first zs none | some _ ↦ head ])
          (first (ys ++ zs) none)
  head_without [] zs p v head e = refl
  head_without ((a, w) ∷ ys) zs p v head e = e

  tail_without :
      (ys zs : Cells V) (p : ℕ) (v : V) (tail : Ptr)
      → tail ≡ final (ys ++ ((p, v) ∷ zs)) none
      → ◌≡◌ {A = Ptr}
          (elim (first zs none) [ none ↦ final ys none | some _ ↦ tail ])
          (final (ys ++ zs) none)
  tail_without ys [] p v tail e = sym (final-append ys [] none)
  tail_without ys ((b, w) ∷ zs) p v tail e =
      e ∙ final-append ys ((p, v) ∷ (b, w) ∷ zs) none ∙ sym (final-append ys ((b, w) ∷ zs) none)

  -- What a deletion achieves: the list without the cell, its node given back, and every other
  -- address as it was.
  abbrev pub Deleted : Heap V → Cells V → ℕ → V → Cells V → Option (DList × Heap V) → Type 0
  Deleted h ys p v zs result =
      (l' : DList) × (h' : Heap V) × (result ≡ some (l', h'))
      × IsList h' l' (ys ++ zs)
      × (h' p ≡ none)
      × SameOutside (ys ++ ((p, v) ∷ zs)) h h'

  -- The deletion of any node of a list, first, last, only or between, runs without a fault: what is
  -- left is the list of the other cells in their order, the node is given back, and no address
  -- outside the list changes.
  pub list_del_node_lem :
      (h : Heap V) (l : DList) (ys : Cells V) (p : ℕ) (v : V) (zs : Cells V)
      → IsList h l (ys ++ ((p, v) ∷ zs))
      → Deleted h ys p v zs (list_del_node h l p)
  unfolding list_del_node
  list_del_node_lem h l ys p v zs is =
      let cell = ((p, v) ∷ zs) in
      let (dy, dc, apart) = NoDup-parts ys cell is.apart in
      let at_p = Linked-back h none ys cell none is.links in
      let (h₁, runs₁, front, same₁) =
        relink_next_lem h ys (some p) (first zs none) (Linked-front h none ys cell none is.links)
          dy in
      let out_p : has p ys ≡ false = ground (arith, apart p) in
      let back₁ =
        Linked-same h h₁ (some p) zs none at_p.1
          (λ a there. same₁ a (ground (arith, apart a, there))) in
      let still : h₁ p ≡ some (node (final ys none) v (first zs none)) = same₁ p out_p ∙ at_p.0 in
      let (h₂, runs₂, back, same₂) = relink_prev_lem h₁ (some p) zs (final ys none) back₁ dc.1 in
      let front₂ =
        Linked-same h₁ h₂ none ys (first zs none) front
          (λ a there. same₂ a (ground (arith, apart a, there))) in
      rw (at_p.0, runs₁, still, runs₂)
        (
          _,
          write h₂ p none,
          refl,
          record {
            head = head_without ys zs p v l.head is.head;
            tail = tail_without ys zs p v l.tail is.tail;
            len = omega (arith, is.len, length-append ys cell, length-append ys zs);
            links =
                Linked-append (write h₂ p none) none ys zs none
                  (Linked-write h₂ p none none ys (first zs none) out_p front₂)
                  (Linked-write h₂ p none (final ys none) zs none dc.0 back);
            apart = NoDup-join ys zs dy dc.1 (λ a there. ground (arith, apart a there));
          },
          ground arith,
          λ a out. ground (arith, same₁ a, same₂ a, out, has-append a ys cell),
        )
