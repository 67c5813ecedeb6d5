-- ===== src/Adlist/Walk.antt =====
-- listNext, listSearchKey and listIndex visit the nodes in the order of the list, or backwards.
use mathlib.Core.List.{reverse, reverse-cons, reverse-reverse}
use commit_redis.Prelude.{
  ℕ, zero, suc, ◌+◌, ◌≡◌, ◌<◌, refl, sym, ◌∙◌, ap, Bool, true, false, Bool-cases, inl, inr, none,
  some, [], ◌∷◌, if◌then◌else◌, length, arith,
}
use commit_redis.Prelude.Int.{pos, negsuc}
use commit_redis.Adlist.Defs.{
  Ptr, Heap, DList, list_next, search_loop, list_search_key, index_loop, list_index,
}
use commit_redis.Adlist.Linked.{
  Cells, first, final, Linked, IsList, Linked-back, Linked-front, final-append,
}

module _ {V : Type 0} where
  -- The node of the first value that passes the test; the node at a position.
  abbrev pub find_node : (V → Bool) → Cells V → Ptr
  find_node test [] = none
  find_node test ((a, v) ∷ xs) = if test v then some a else find_node test xs

  abbrev pub node_at : Cells V → ℕ → Ptr
  node_at [] i = none
  node_at ((a, v) ∷ xs) zero = some a
  node_at ((a, v) ∷ xs) (suc i) = node_at xs i

  search_loop_lem :
      (fuel : ℕ) (h : Heap V) (test : V → Bool) (before : Ptr) (xs : Cells V)
      → Linked h before xs none
      → length xs < fuel
      → search_loop fuel h test (record { next = first xs none; from_head = true })
        ≡ some (find_node test xs)
  unfolding search_loop list_next
  search_loop_lem zero h test before xs l lt = absurd (omega arith)
  search_loop_lem (suc fuel) h test before [] l lt = refl
  search_loop_lem (suc fuel) h test before ((a, v) ∷ xs) l lt = elim (Bool-cases (test v)) [
    | inl e ↦ rw (l.0, l.0, e) refl
    | inr e ↦ rw (l.0, l.0, e) (search_loop_lem fuel h test (some a) xs l.1 (omega arith))
  ]

  -- The search ends and finds the first node whose value passes the test, or NULL where none does.
  pub list_search_key_lem :
      (h : Heap V) (l : DList) (xs : Cells V) (test : V → Bool)
      → IsList h l xs
      → list_search_key h l test ≡ some (find_node test xs)
  unfolding list_search_key
  list_search_key_lem h l xs test is =
      rw is.head (search_loop_lem (l.len + 1) h test none xs is.links (omega (arith, is.len)))

  index_forward :
      (h : Heap V) (before : Ptr) (xs : Cells V) (i : ℕ)
      → Linked h before xs none
      → index_loop h true i (first xs none) ≡ some (node_at xs i)
  unfolding index_loop
  index_forward h before [] zero l = refl
  index_forward h before [] (suc i) l = refl
  index_forward h before ((a, v) ∷ xs) zero l = refl
  index_forward h before ((a, v) ∷ xs) (suc i) l = rw l.0 (index_forward h (some a) xs i l.1)

  -- Backwards, by the list in the order in which it is visited.
  index_backward :
      (h : Heap V) (rs : Cells V) (behind : Ptr) (i : ℕ)
      → Linked h none (reverse rs) behind
      → index_loop h false i (final (reverse rs) none) ≡ some (node_at rs i)
  unfolding index_loop
  index_backward h [] behind zero l = refl
  index_backward h [] behind (suc i) l = refl
  index_backward h ((a, v) ∷ rs) behind zero l =
      rw (reverse-cons (a, v) rs, final-append (reverse rs) ((a, v) ∷ []) none) refl
  index_backward h ((a, v) ∷ rs) behind (suc i) l =
      let links = rw (reverse-cons (a, v) rs) at l in
      let at_a = (Linked-back h none (reverse rs) ((a, v) ∷ []) behind links).0 in
      rw (reverse-cons (a, v) rs, final-append (reverse rs) ((a, v) ∷ []) none, at_a)
        (index_backward h rs (some a) i
          (Linked-front h none (reverse rs) ((a, v) ∷ []) behind links))

  -- An index from zero counts from the head, a negative one from the tail, -1 being the last node; a
  -- position outside the list gives NULL, and no walk leaves the list.
  pub list_index_lem :
      (h : Heap V) (l : DList) (xs : Cells V) (i : ℕ)
      → IsList h l xs
      → (list_index h l (pos i) ≡ some (node_at xs i))
        × (list_index h l (negsuc i) ≡ some (node_at (reverse xs) i))
  unfolding list_index
  list_index_lem h l xs i is = (
    rw is.head (index_forward h none xs i is.links),
    ap (index_loop h false i) (is.tail ∙ ap (λ t. final t none) (sym (reverse-reverse xs)))
        ∙ index_backward h (reverse xs) none i (rw (reverse-reverse xs) is.links),
  )
