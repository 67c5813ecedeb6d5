-- ===== src/Zset/ByRank.antt =====
-- zslGetElementByRank of redis-2.6.12/src/t_zset.c.
use commit_redis.Prelude.{
  ℕ, zero, suc, ◌≤◌, ◌<◌, ◌≡◌, refl, ap, sym, ◌∙◌, true, false, Bool-cases, inl, inr, some, List,
  [], ◌∷◌, ◌++◌, ltb, ◌==◌, length, length-append, arith,
}
use commit_redis.Zset.Defs.{Ptr, ZSkipList, ZHeap}
use commit_redis.Zset.Lookup.{walk_rank, find_rank, zsl_get_element_by_rank}
use commit_redis.Zset.Cells.{Cell, Row, Low}
use commit_redis.Zset.Splice.{is_same}
use commit_redis.Zset.Search.{Stands, Stands-lower}
use commit_redis.Zset.Valid.{IsSkipList, Heights, Heights-append}
use commit_redis.Zset.Rank.{ranked, ranked-at, ranked-end, Stopped, walk_rank_lem}

module _ {S : Type 0} where
  found_rank :
      (rank fuel : ℕ) (h : ZHeap S) (i x r u : ℕ)
      → walk_rank rank fuel h i x r ≡ some (u, rank)
      → find_rank rank fuel h (suc i) x r ≡ some (some u)
  unfolding find_rank
  found_rank rank fuel h i x r u e = rw (e, is_self rank) refl
    where
      is_self : (n : ℕ) → (n == n) ≡ true
      is_self n = ground arith

  next_rank :
      (rank fuel : ℕ) (h : ZHeap S) (i x r u r' : ℕ) (q : Ptr)
      → walk_rank rank fuel h i x r ≡ some (u, r')
      → (r' == rank) ≡ false
      → find_rank rank fuel h i u r' ≡ some q
      → find_rank rank fuel h (suc i) x r ≡ some q
  unfolding find_rank
  next_rank rank fuel h i x r u r' q e other runs = rw (e, other) runs

  -- Each node has a level 0, so a walk on it that ends before a rank ends at the last node.
  past_end :
      (rank n : ℕ) (head : Cell S) (cells : List (Cell S)) (u r : ℕ)
      → Heights n cells
      → Stopped rank 0 (head ∷ cells) u r
      → (r == rank) ≡ false
      → length (head ∷ cells) ≤ rank
  past_end rank n head cells u r heights stopped other =
      let s = stopped.stands in
      let hs = behind s.front s.cell s.back s.parts in
      elim stopped.beyond [
        | inl low ↦ omega (
          arith,
          ends s.back low hs,
          s.counts,
          ap length s.parts,
          length-append s.front (s.cell ∷ s.back),
          below r rank other stopped.before,
        )
        | inr (mid, d, back, e, low, far) ↦ absurd (
            omega (
              arith,
              far,
              ends mid low (Heights-append n mid (d ∷ back) (rw e at hs)).0,
              below r rank other stopped.before,
            ))
      ]
    where
      behind :
          (front : List (Cell S)) (c : Cell S) (back : List (Cell S))
          → head ∷ cells ≡ front ++ (c ∷ back)
          → Heights n back
      behind [] c back e = let same : cells ≡ back = cc in rw same at heights
      behind (f ∷ front) c back e =
          let same : cells ≡ front ++ (c ∷ back) = cc in
          (Heights-append n front (c ∷ back) (rw same at heights)).1.2

      ends : (xs : List (Cell S)) → Low 0 xs → Heights n xs → length xs ≡ 0
      ends [] low hs = refl
      ends (x ∷ xs) (short, low) (some_level, few, hs) = absurd (ground arith)

      below : (a b : ℕ) → (a == b) ≡ false → a ≤ b → a < b
      below a b e le = ground arith

  -- With each level's row, the search gives the node of the rank. On no levels, all nodes come before it.
  find_rank_lem :
      (rank fuel : ℕ) (h : ZHeap S) (k : ℕ) (head : Cell S) (cells : List (Cell S)) (n x r : ℕ)
      → length (head ∷ cells) ≤ fuel
      → Heights k cells
      → ((i : ℕ) → i < n → Row h i (head ∷ cells))
      → ((i : ℕ) → i < n → Stands i (head ∷ cells) x r)
      → r ≤ rank
      → (n ≡ 0 → length (head ∷ cells) ≤ rank)
      → find_rank rank fuel h n x r ≡ some (ranked (head ∷ cells) rank)
  unfolding find_rank
  find_rank_lem rank fuel h k head cells zero x r room heights rows stands before at_end =
      rw (ranked-end (head ∷ cells) rank (at_end refl)) refl
  find_rank_lem rank fuel h k head cells (suc n) x r room heights rows stands before at_end =
      let s = stands n (omega arith) in
      let (u, r', runs, stopped) =
        walk_rank_lem rank h (head ∷ cells) fuel n x r s before
          (omega (arith, room, ap length s.parts, length-append s.front (s.cell ∷ s.back)))
          (rows n (omega arith)) in
      let t = stopped.stands in
      elim (Bool-cases (r' == rank)) [
        | inl same ↦
            let e : r' ≡ rank = is_same r' rank same in
            found_rank rank fuel h n x r u (runs ∙ ap (λ m. some (u, m)) e)
            ∙ ap (λ a. some (some a)) t.here
            ∙ ap some (
                sym (
                  ap (λ l. ranked l rank) t.parts
                  ∙ ap (ranked (t.front ++ (t.cell ∷ t.back))) (sym e ∙ t.counts)
                  ∙ ranked-at t.front t.cell t.back))
        | inr other ↦ next_rank rank fuel h n x r u r' (ranked (head ∷ cells) rank) runs other (
            find_rank_lem rank fuel h k head cells n u r' room heights
              (λ i less. rows i (omega arith))
              (λ i less. Stands-lower n i (head ∷ cells) u r' (omega arith) t) stopped.before
              (λ e. past_end rank k head cells u r' heights (at_level_0 n u r' e stopped) other))
      ]
    where
      at_level_0 :
          (i u r : ℕ)
          → i ≡ 0
          → Stopped rank i (head ∷ cells) u r
          → Stopped rank 0 (head ∷ cells) u r
      at_level_0 i u r e stopped = rw e at stopped

  -- On a valid skip list zslGetElementByRank runs without a fault for any rank and gives the node at
  -- that place: the header for 0, the nodes in order from 1 on, and NULL for a rank beyond the length.
  pub zsl_get_element_by_rank_lem :
      (h : ZHeap S) (zl : ZSkipList) (cells : List (Cell S)) (v : IsSkipList h zl cells) (rank : ℕ)
      → zsl_get_element_by_rank h zl rank ≡ some (ranked (v.head ∷ cells) rank)
  unfolding zsl_get_element_by_rank
  zsl_get_element_by_rank_lem h zl cells v rank =
      find_rank_lem rank (suc zl.length) h zl.level v.head cells zl.level zl.header 0
        (omega (arith, v.len)) v.heights v.rows
        (λ i less. record {
          front = [];
          cell = v.head;
          back = cells;
          parts = refl;
          here = sym v.at_head;
          high = at_top i v.head.height v.head_height (omega (arith, v.level));
          counts = refl;
        })
        (omega arith) (λ e. absurd (omega (arith, v.level)))
    where
      at_top : (i n : ℕ) → n ≡ 32 → i < 32 → ltb i n ≡ true
      at_top i n e less = ground arith
