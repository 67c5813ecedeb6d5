-- ===== src/Adlist/Add.antt =====
-- listAddNodeHead, listAddNodeTail and listInsertNode put one node into the list.
use commit_redis.Prelude.{
  ℕ, suc, ◌≡◌, refl, sym, ◌∙◌, ap, true, false, Bool-cases, inl, inr, Option, none, some, [], ◌∷◌,
  ◌++◌, ◌==◌, length, length-append, arith, ==_iff,
}
use commit_redis.Adlist.Defs.{
  Ptr, node, Heap, DList, Malloc, write, list_add_node_head, list_add_node_tail, relink_next,
  relink_prev,
}
use commit_redis.Adlist.Linked.{
  Cells, has, first, last_of, final, Linked, NoDup, IsList, SameOutside, Linked-same, Linked-write,
  Linked-append, Linked-front, Linked-back, has-append, last_of-append,
}
use commit_redis.Adlist.Relink.{NoDup-parts, NoDup-join, relink_next_lem, relink_prev_lem}

suc_full : (n m : ℕ) → n ≡ suc m → (n == 0) ≡ false
suc_full n m e = ground arith

zero_empty : (n : ℕ) → n ≡ 0 → (n == 0) ≡ true
zero_empty n e = ground arith

module _ {V : Type 0} where
  -- An address with no node is in no list.
  unused_out :
      (h : Heap V) (before : Ptr) (xs : Cells V) (behind : Ptr) (p : ℕ)
      → Linked h before xs behind
      → h p ≡ none
      → has p xs ≡ false
  unused_out h before [] behind p l e = refl
  unused_out h before ((a, v) ∷ xs) behind p l e = elim (Bool-cases (a == p)) [
    | inl same ↦ let eq : a ≡ p = (==_iff a p).0 same in cc (ap h eq, l.0, e)
    | inr differ ↦ rw differ (unused_out h (some a) xs behind p l.1 e)
  ]

  -- The two writes that link a new node between cells, from the heap that holds the node.
  pub record Spliced (h : Heap V) (xs : Cells V) (p : ℕ) (v : V) (ys : Cells V) : Type 0 where
    pub after_next : Heap V
    pub after_prev : Heap V
    pub next_runs :
        relink_next
          (write h p (some (node (final xs none) v (first ys none))))
          (final xs none)
          (some p)
        ≡ some after_next
    pub prev_runs : relink_prev after_next (first ys none) (some p) ≡ some after_prev
    pub links : Linked after_prev none (xs ++ ((p, v) ∷ ys)) none
    pub apart : NoDup (xs ++ ((p, v) ∷ ys))
    pub same : SameOutside (xs ++ ((p, v) ∷ ys)) h after_prev

  pub splice :
      (h : Heap V) (xs : Cells V) (p : ℕ) (v : V) (ys : Cells V)
      → Linked h none (xs ++ ys) none
      → NoDup (xs ++ ys)
      → h p ≡ none
      → Spliced h xs p v ys
  splice h xs p v ys l d unused =
      let out = unused_out h none (xs ++ ys) none p l unused in
      let out_x : has p xs ≡ false = ground (arith, out, has-append p xs ys) in
      let out_y : has p ys ≡ false = ground (arith, out, has-append p xs ys) in
      let (dx, dy, apart) = NoDup-parts xs ys d in
      let n = node (final xs none) v (first ys none) in
      let front =
        Linked-write h p (some n) none xs (first ys none) out_x
          (Linked-front h none xs ys none l) in
      let back =
        Linked-write h p (some n) (final xs none) ys none out_y (Linked-back h none xs ys none l) in
      let (h₁, runs₁, front₁, same₁) =
        relink_next_lem (write h p (some n)) xs (first ys none) (some p) front dx in
      let at_p : h₁ p ≡ some n = same₁ p out_x ∙ ground arith in
      let back₁ =
        Linked-same (write h p (some n)) h₁ (final xs none) ys none back
          (λ a there. same₁ a (ground (arith, apart a, there))) in
      let (h₂, runs₂, back₂, same₂) = relink_prev_lem h₁ (final xs none) ys (some p) back₁ dy in
      let front₂ =
        Linked-same h₁ h₂ none xs (some p) front₁
          (λ a there. same₂ a (ground (arith, apart a, there))) in
      record {
        after_next = h₁;
        after_prev = h₂;
        next_runs = runs₁;
        prev_runs = runs₂;
        links = Linked-append h₂ none xs ((p, v) ∷ ys) none front₂ (same₂ p out_y ∙ at_p, back₂);
        apart =
            NoDup-join xs ((p, v) ∷ ys) dx (out_y, dy)
              (λ a there. elim (Bool-cases (p == a)) [
                | inl e ↦ let eq : p ≡ a = (==_iff p a).0 e in cc (out_x, there, eq)
                | inr e ↦ rw e (apart a there)
              ]);
        same = λ a outside. ground (
          arith,
          same₁ a,
          same₂ a,
          outside,
          has-append a xs ((p, v) ∷ ys),
          ==_iff a p,
          ==_iff p a,
        );
      }

  -- What an insertion achieves: a header of the new list, and no address outside it changed.
  abbrev pub Added : Heap V → Cells V → Option (Option DList × Heap V) → Type 0
  Added h xs result =
      (l' : DList) × (h' : Heap V) × (result ≡ some (some l', h'))
      × IsList h' l' xs
      × SameOutside xs h h'

  add_head :
      (malloc : Malloc V) (h : Heap V) (l : DList) (xs : Cells V) (p : ℕ) (v : V)
      → malloc h ≡ some p
      → h p ≡ none
      → IsList h l xs
      → Added h ((p, v) ∷ xs) (list_add_node_head malloc h l v)
  unfolding list_add_node_head relink_next relink_prev
  add_head malloc h l [] p v got unused is =
      let s = splice h [] p v [] is.links is.apart unused in
      let empty : (l.len == 0) ≡ true = zero_empty l.len is.len in
      let same : write h p (some (node none v none)) ≡ s.after_prev =
        cc (s.next_runs, s.prev_runs) in
      rw (got, list_add_node_head, empty, same)
        (
          _,
          s.after_prev,
          refl,
          record {
            head = refl;
            tail = refl;
            len = omega (arith, is.len);
            links = s.links;
            apart = s.apart;
          },
          s.same,
        )
  add_head malloc h l ((b, w) ∷ xs) p v got unused is =
      let s = splice h [] p v ((b, w) ∷ xs) is.links is.apart unused in
      let full : (l.len == 0) ≡ false = suc_full l.len (length xs) is.len in
      let start : write h p (some (node none v (some b))) ≡ s.after_next = cc s.next_runs in
      let head : l.head ≡ some b = is.head in
      rw (got, list_add_node_head, full, head, start, s.prev_runs)
        (
          _,
          s.after_prev,
          refl,
          record {
            head = refl;
            tail = is.tail;
            len = omega (arith, is.len);
            links = s.links;
            apart = s.apart;
          },
          s.same,
        )

  add_tail :
      (malloc : Malloc V) (h : Heap V) (l : DList) (xs : Cells V) (p : ℕ) (v : V)
      → malloc h ≡ some p
      → h p ≡ none
      → IsList h l xs
      → Added h (xs ++ ((p, v) ∷ [])) (list_add_node_tail malloc h l v)
  unfolding list_add_node_tail relink_next relink_prev
  add_tail malloc h l [] p v got unused is =
      let s = splice h [] p v [] is.links is.apart unused in
      let empty : (l.len == 0) ≡ true = zero_empty l.len is.len in
      let same : write h p (some (node none v none)) ≡ s.after_prev =
        cc (s.next_runs, s.prev_runs) in
      rw (got, list_add_node_tail, empty, same)
        (
          _,
          s.after_prev,
          refl,
          record {
            head = refl;
            tail = refl;
            len = omega (arith, is.len);
            links = s.links;
            apart = s.apart;
          },
          s.same,
        )
  add_tail malloc h l ((b, w) ∷ xs) p v got unused is =
      let ys = (b, w) ∷ xs in
      let s =
        splice h ys p v [] (Linked-append h none ys [] none is.links tt)
          (NoDup-join ys [] is.apart tt (λ a there. refl)) unused in
      let full : (l.len == 0) ≡ false = suc_full l.len (length xs) is.len in
      let tail : l.tail ≡ some (last_of b xs) = is.tail in
      let same : s.after_next ≡ s.after_prev = cc s.prev_runs in
      rw (got, list_add_node_tail, full, tail, s.next_runs, same)
        (
          _,
          s.after_prev,
          refl,
          record {
            head = is.head;
            tail = ap some (sym (last_of-append b xs p v []));
            len = omega (arith, is.len, length-append ys ((p, v) ∷ []));
            links = s.links;
            apart = s.apart;
          },
          s.same,
        )

  -- A node that could be allocated is put before all others by listAddNodeHead and behind all others
  -- by listAddNodeTail, also in an empty list, and no address outside the new list changes.
  pub list_add_node_lem :
      (malloc : Malloc V) (h : Heap V) (l : DList) (xs : Cells V) (p : ℕ) (v : V)
      → malloc h ≡ some p
      → h p ≡ none
      → IsList h l xs
      → Added h ((p, v) ∷ xs) (list_add_node_head malloc h l v)
        × Added h (xs ++ ((p, v) ∷ [])) (list_add_node_tail malloc h l v)
  list_add_node_lem malloc h l xs p v got unused is =
      (add_head malloc h l xs p v got unused is, add_tail malloc h l xs p v got unused is)
