-- ===== src/Adlist/Insert.antt =====
-- listInsertNode puts a node next to another.
use commit_redis.Prelude.{
  ℕ, ◌≡◌, refl, sym, ◌∙◌, ap, Bool, true, false, none, some, [], ◌∷◌, ◌++◌, ◌==◌, if◌then◌else◌,
  length-append, arith,
}
use commit_redis.Adlist.Defs.{Ptr, Heap, DList, Malloc, is_node, list_insert_node}
use commit_redis.Adlist.Linked.{
  Cells, has, first, last_of, final, NoDup, IsList, Linked-back, has-append, final-append,
  first-append,
}
use commit_redis.Adlist.Relink.{NoDup-parts, has-last_of, has-differ}
use commit_redis.Adlist.Add.{splice, Added}

module _ {V : Type 0} where
  append_one :
      (ys : Cells V) (o : ℕ) (w : V) (zs : Cells V)
      → (ys ++ ((o, w) ∷ [])) ++ zs ≡ ys ++ ((o, w) ∷ zs)
  append_one [] o w zs = refl
  append_one (y ∷ ys) o w zs = ap (λ t. y ∷ t) (append_one ys o w zs)

  -- Which end of the list a node is, by its neighbours.
  tail_after :
      (ys : Cells V) (o : ℕ) (w : V) (p : ℕ) (v : V) (zs : Cells V) (tail : Ptr)
      → NoDup ((o, w) ∷ zs)
      → tail ≡ final (ys ++ ((o, w) ∷ zs)) none
      → (if is_node tail o then some p else tail) ≡ final (ys ++ ((o, w) ∷ (p, v) ∷ zs)) none
  tail_after ys o w p v [] tail d e =
      let end : tail ≡ some o = e ∙ final-append ys ((o, w) ∷ []) none in
      let self : (o == o) ≡ true = ground arith in
      rw (end, self) (sym (final-append ys ((o, w) ∷ (p, v) ∷ []) none))
  tail_after ys o w p v ((b, u) ∷ zs) tail d e =
      let end : tail ≡ some (last_of b zs) = e ∙ final-append ys ((o, w) ∷ (b, u) ∷ zs) none in
      let other : (o == last_of b zs) ≡ false =
        has-differ o (last_of b zs) ((b, u) ∷ zs) d.0 (has-last_of b u zs) in
      let swapped : (last_of b zs == o) ≡ false = ground (arith, other) in
      rw (end, swapped) (sym (final-append ys ((o, w) ∷ (p, v) ∷ (b, u) ∷ zs) none))

  head_before :
      (ys : Cells V) (o : ℕ) (w : V) (p : ℕ) (v : V) (zs : Cells V) (head : Ptr)
      → NoDup (ys ++ ((o, w) ∷ zs))
      → head ≡ first (ys ++ ((o, w) ∷ zs)) none
      → (if is_node head o then some p else head) ≡ first (ys ++ ((p, v) ∷ (o, w) ∷ zs)) none
  head_before [] o w p v zs head d e =
      let self : (o == o) ≡ true = ground arith in rw (e, self) refl
  head_before ((a, u) ∷ ys) o w p v zs head d e =
      let there : has o (ys ++ ((o, w) ∷ zs)) ≡ true =
        ground (arith, has-append o ys ((o, w) ∷ zs)) in
      let differ : (a == o) ≡ false = has-differ a o (ys ++ ((o, w) ∷ zs)) d.0 there in
      rw (e, differ) refl

  insert_after :
      (malloc : Malloc V) (h : Heap V) (l : DList) (ys : Cells V) (o : ℕ) (w : V) (zs : Cells V)
      (p : ℕ) (v : V)
      → malloc h ≡ some p
      → h p ≡ none
      → IsList h l (ys ++ ((o, w) ∷ zs))
      → Added h (ys ++ ((o, w) ∷ (p, v) ∷ zs)) (list_insert_node malloc h l o v true)
  unfolding list_insert_node
  insert_after malloc h l ys o w zs p v got unused is =
      let at_o = Linked-back h none ys ((o, w) ∷ zs) none is.links in
      let xs = ys ++ ((o, w) ∷ []) in
      let s =
        splice h xs p v zs (rw (append_one ys o w zs) is.links) (rw (append_one ys o w zs) is.apart)
          unused in
      let end : final xs none ≡ some o = final-append ys ((o, w) ∷ []) none in
      let next = rw end at s.next_runs in
      rw (got, list_insert_node, at_o.0, next, s.prev_runs)
        (
          _,
          s.after_prev,
          refl,
          record {
            head =
                is.head
                ∙ first-append ys ((o, w) ∷ zs) none
                ∙ sym (first-append ys ((o, w) ∷ (p, v) ∷ zs) none);
            tail =
                tail_after ys o w p v zs l.tail (NoDup-parts ys ((o, w) ∷ zs) is.apart).1 is.tail;
            len = omega (
              arith,
              is.len,
              length-append ys ((o, w) ∷ zs),
              length-append ys ((o, w) ∷ (p, v) ∷ zs),
            );
            links = rw (append_one ys o w ((p, v) ∷ zs)) at s.links;
            apart = rw (append_one ys o w ((p, v) ∷ zs)) at s.apart;
          },
          rw (append_one ys o w ((p, v) ∷ zs)) at s.same,
        )

  insert_before :
      (malloc : Malloc V) (h : Heap V) (l : DList) (ys : Cells V) (o : ℕ) (w : V) (zs : Cells V)
      (p : ℕ) (v : V)
      → malloc h ≡ some p
      → h p ≡ none
      → IsList h l (ys ++ ((o, w) ∷ zs))
      → Added h (ys ++ ((p, v) ∷ (o, w) ∷ zs)) (list_insert_node malloc h l o v false)
  unfolding list_insert_node
  insert_before malloc h l ys o w zs p v got unused is =
      let cell = (o, w) ∷ zs in
      let at_o = Linked-back h none ys cell none is.links in
      let s = splice h ys p v cell is.links is.apart unused in
      rw (got, list_insert_node, at_o.0, s.next_runs, s.prev_runs)
        (
          _,
          s.after_prev,
          refl,
          record {
            head = head_before ys o w p v zs l.head is.apart is.head;
            tail = is.tail ∙ final-append ys cell none ∙ sym (final-append ys ((p, v) ∷ cell) none);
            len = omega (arith, is.len, length-append ys cell, length-append ys ((p, v) ∷ cell));
            links = s.links;
            apart = s.apart;
          },
          s.same,
        )

  -- A node that could be allocated is put right behind the old node, or right before it, wherever the
  -- old node stands in the list; no address outside the new list changes.
  pub list_insert_node_lem :
      (malloc : Malloc V) (h : Heap V) (l : DList) (ys : Cells V) (o : ℕ) (w : V) (zs : Cells V)
      (p : ℕ) (v : V) (after : Bool)
      → malloc h ≡ some p
      → h p ≡ none
      → IsList h l (ys ++ ((o, w) ∷ zs))
      → Added h
          (ys ++ (if after then (o, w) ∷ (p, v) ∷ zs else (p, v) ∷ (o, w) ∷ zs))
          (list_insert_node malloc h l o v after)
  list_insert_node_lem malloc h l ys o w zs p v true = insert_after malloc h l ys o w zs p v
  list_insert_node_lem malloc h l ys o w zs p v false = insert_before malloc h l ys o w zs p v
