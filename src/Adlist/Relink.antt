-- ===== src/Adlist/Relink.antt =====
-- What a write to the pointer at the end of linked cells does to them.
use commit_redis.Prelude.{
  ℕ, ◌≡◌, refl, ◌∙◌, true, false, Bool-cases, inl, inr, none, some, [], ◌∷◌, ◌++◌, ◌==◌, ==_iff,
  arith,
}
use commit_redis.Adlist.Defs.{Ptr, node, Heap, write, set_next, set_prev, relink_next, relink_prev}
use commit_redis.Adlist.Linked.{
  Cells, has, first, last_of, final, Linked, NoDup, SameOutside, Linked-write, has-append,
}

module _ {V : Type 0} where
  -- No address of the one is in the other.
  abbrev pub Apart : Cells V → Cells V → Type 0
  Apart xs ys = (a : ℕ) → has a xs ≡ true → has a ys ≡ false

  pub NoDup-parts : (xs ys : Cells V) → NoDup (xs ++ ys) → NoDup xs × NoDup ys × Apart xs ys
  NoDup-parts [] ys d = (tt, d, λ a there. ground arith)
  NoDup-parts ((a, v) ∷ xs) ys d =
      let (dx, dy, apart) = NoDup-parts xs ys d.1 in
      (
        (ground (arith, d.0, has-append a xs ys), dx),
        dy,
        λ b there. ground (arith, apart b, d.0, has-append a xs ys),
      )

  pub NoDup-join : (xs ys : Cells V) → NoDup xs → NoDup ys → Apart xs ys → NoDup (xs ++ ys)
  NoDup-join [] ys dx dy apart = dy
  NoDup-join ((a, v) ∷ xs) ys dx dy apart = (
    ground (arith, dx.0, has-append a xs ys, apart a),
    NoDup-join xs ys dx.1 dy (λ b there. ground (arith, apart b)),
  )

  pub has-last_of : (a : ℕ) (v : V) (xs : Cells V) → has (last_of a xs) ((a, v) ∷ xs) ≡ true
  has-last_of a v [] = ground arith
  has-last_of a v ((b, w) ∷ xs) = ground (arith, has-last_of b w xs)

  pub has-differ : (a c : ℕ) (xs : Cells V) → has a xs ≡ false → has c xs ≡ true → (a == c) ≡ false
  has-differ a c xs out there = elim (Bool-cases (a == c)) [
    | inl e ↦ let same : a ≡ c = (==_iff a c).0 e in cc (out, there, same)
    | inr e ↦ e
  ]

  -- `last->next = q` for cells of which there is one at least.
  set_next_last :
      (h : Heap V) (before : Ptr) (a : ℕ) (v : V) (xs : Cells V) (behind q : Ptr)
      → Linked h before ((a, v) ∷ xs) behind
      → NoDup ((a, v) ∷ xs)
      → (h' : Heap V) × (set_next h (last_of a xs) q ≡ some h')
        × Linked h' before ((a, v) ∷ xs) q
        × ((b : ℕ) → (b == last_of a xs) ≡ false → h' b ≡ h b)
  unfolding set_next
  set_next_last h before a v [] behind q l d =
      (write h a (some (node before v q)), rw l.0 refl, (ground arith, tt), λ b e. ground arith)
  set_next_last h before a v ((b, w) ∷ xs) behind q l d =
      let (h', runs, links, same) = set_next_last h (some a) b w xs behind q l.1 d.1 in
      let differ : (a == last_of b xs) ≡ false =
        has-differ a (last_of b xs) ((b, w) ∷ xs) d.0 (has-last_of b w xs) in
      (h', runs, (same a differ ∙ l.0, links), same)

  pub relink_next_lem :
      (h : Heap V) (xs : Cells V) (behind q : Ptr)
      → Linked h none xs behind
      → NoDup xs
      → (h' : Heap V) × (relink_next h (final xs none) q ≡ some h')
        × Linked h' none xs q
        × SameOutside xs h h'
  unfolding relink_next
  relink_next_lem h [] behind q l d = (h, refl, tt, λ a out. refl)
  relink_next_lem h ((a, v) ∷ xs) behind q l d =
      let (h', runs, links, same) = set_next_last h none a v xs behind q l d in
      (
        h',
        runs,
        links,
        λ b out. same b (has-differ b (last_of a xs) ((a, v) ∷ xs) out (has-last_of a v xs)),
      )

  pub relink_prev_lem :
      (h : Heap V) (before : Ptr) (xs : Cells V) (q : Ptr)
      → Linked h before xs none
      → NoDup xs
      → (h' : Heap V) × (relink_prev h (first xs none) q ≡ some h')
        × Linked h' q xs none
        × SameOutside xs h h'
  unfolding relink_prev set_prev
  relink_prev_lem h before [] q l d = (h, refl, tt, λ a out. refl)
  relink_prev_lem h before ((a, v) ∷ xs) q l d =
      let n = node q v (first xs none) in
      (
        write h a (some n),
        rw l.0 refl,
        (ground arith, Linked-write h a (some n) (some a) xs none d.0 l.1),
        λ b out. ground (arith, out),
      )
