-- ===== src/Adlist/Rotate.antt =====
-- listRotate moves the last node to the front.
use commit_redis.Prelude.{
  ℕ, suc, ◌+◌, ◌≡◌, refl, ◌∙◌, true, false, Bool-cases, inl, inr, Option, none, some, [], ◌∷◌, ◌++◌,
  ◌==◌, length, length-append, arith, ==_iff, leb,
}
use commit_redis.Adlist.Defs.{
  Ptr, node, Heap, DList, write, list_rotate, relink_next, relink_prev, set_next, set_prev,
}
use commit_redis.Adlist.Linked.{
  Cells, has, last_of, final, IsList, SameOutside, Linked-same, Linked-back, Linked-front,
  final-append,
}
use commit_redis.Adlist.Relink.{NoDup-parts, relink_next_lem, relink_prev_lem}

two_long : (n m : ℕ) → n ≡ suc m + 1 → leb n 1 ≡ false
two_long n m e = ground arith

module _ {V : Type 0} where
  -- The two writes to the node that moves.
  move_front :
      (h : Heap V) (p : ℕ) (before behind q : Ptr) (v : V)
      → h p ≡ some (node before v behind)
      → (h₁ : Heap V) × (h' : Heap V) × (set_prev h p none ≡ some h₁)
        × (set_next h₁ p q ≡ some h')
        × (h' p ≡ some (node none v q))
        × ((a : ℕ) → (a == p) ≡ false → h' a ≡ h a)
  unfolding set_next set_prev
  move_front h p before behind q v e =
      let self : (p == p) ≡ true = ground arith in
      (
        write h p (some (node none v behind)),
        write (write h p (some (node none v behind))) p (some (node none v q)),
        rw e refl,
        rw self refl,
        ground arith,
        λ a differ. rw differ refl,
      )

  -- What a rotation achieves: a header of the new order, and no address outside changed.
  abbrev pub Rotated : Heap V → Cells V → Option (DList × Heap V) → Type 0
  Rotated h xs result =
      (l' : DList) × (h' : Heap V) × (result ≡ some (l', h'))
      × IsList h' l' xs
      × SameOutside xs h h'

  -- A rotation of a list with a node runs without a fault: the last node is now the first, the others
  -- follow in their order, and no address outside the list changes.
  pub list_rotate_lem :
      (h : Heap V) (l : DList) (xs : Cells V) (p : ℕ) (v : V)
      → IsList h l (xs ++ ((p, v) ∷ []))
      → Rotated h ((p, v) ∷ xs) (list_rotate h l)
  unfolding list_rotate
  list_rotate_lem h l [] p v is =
      let one : leb l.len 1 ≡ true = ground (arith, is.len) in
      rw one (l, h, refl, is, λ a out. refl)
  list_rotate_lem h l ((b, w) ∷ ys) p v is =
      let xs = (b, w) ∷ ys in
      let (dx, dp, apart) = NoDup-parts xs ((p, v) ∷ []) is.apart in
      let long : leb l.len 1 ≡ false =
        two_long l.len (length ys) (is.len ∙ length-append xs ((p, v) ∷ [])) in
      let out : has p xs ≡ false = elim (Bool-cases (has p xs)) [
        | inl there ↦ let self : (p == p) ≡ true = ground arith in cc (rw self at (apart p there))
        | inr gone ↦ gone
      ] in
      let tail : l.tail ≡ some p = is.tail ∙ final-append xs ((p, v) ∷ []) none in
      let head : l.head ≡ some b = is.head in
      let at_p = (Linked-back h none xs ((p, v) ∷ []) none is.links).0 in
      let (h₁, runs₁, links₁, same₁) =
        relink_next_lem h xs (some p) none (Linked-front h none xs ((p, v) ∷ []) none is.links)
          dx in
      let (h₂, runs₂, links₂, same₂) = relink_prev_lem h₁ none xs (some p) links₁ dx in
      let still : h₂ p ≡ some (node (final xs none) v none) = same₂ p out ∙ same₁ p out ∙ at_p in
      let (h₃, h₄, runs₃, runs₄, node_p, same₄) =
        move_front h₂ p (final xs none) none (some b) v still in
      let runs₁' : set_next h (last_of b ys) none ≡ some h₁ = unfold relink_next in runs₁ in
      let runs₂' : set_prev h₁ b (some p) ≡ some h₂ = unfold relink_prev in runs₂ in
      rw (long, tail, at_p, runs₁', head, runs₂', runs₃, runs₄)
        (
          _,
          h₄,
          refl,
          record {
            head = refl;
            tail = refl;
            len = omega (arith, is.len, length-append xs ((p, v) ∷ []));
            links = (
              node_p,
              Linked-same h₂ h₄ (some p) xs none links₂ (λ a there.
                  same₄ a (elim (Bool-cases (a == p)) [
                    | inl e ↦ let eq : a ≡ p = (==_iff a p).0 e in cc (out, there, eq)
                    | inr e ↦ e
                  ])),
            );
            apart = (out, dx);
          },
          λ a outside. ground (arith, same₄ a, same₂ a, same₁ a, outside),
        )
