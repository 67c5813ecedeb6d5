-- ===== src/Zset/Search.antt =====
-- The search of redis-2.6.12/src/t_zset.c: on each level it ends at the last node before the place.
use mathlib.Core.List.{append_assoc}
use commit_redis.Prelude.{
  ℕ, zero, suc, ◌+◌, ◌≤◌, ◌<◌, ◌≡◌, refl, ap, sym, ◌∙◌, Bool, true, false, inl, inr, Option, none,
  some, List, [], ◌∷◌, ◌++◌, ltb, length, length-append, arith,
}
use commit_redis.Objects.{StringObject}
use commit_redis.Zset.Defs.{ZNode, ZHeap, entry, walk, search}
use commit_redis.Zset.Cells.{Cell, next_at, Row, Low, next_at-Low, next_at-high, first_high, Row-at}

module _ {S : Type 0} where
  -- A node on the way: the last cell of a front part of the cells, with a level `i`; the rank is the
  -- number of cells before it, of which the header is one.
  pub record Stands (i : ℕ) (all : List (Cell S)) (x rank : ℕ) : Type 0 where
    pub front : List (Cell S)
    pub cell : Cell S
    pub back : List (Cell S)
    pub parts : all ≡ front ++ (cell ∷ back)
    pub here : x ≡ cell.addr
    pub high : ltb i cell.height ≡ true
    pub counts : rank ≡ length front

  -- Where the search on level `i` ends: no cell behind that one has a level `i`.
  pub record Found (i : ℕ) (all : List (Cell S)) (x rank : ℕ) : Type 0 where
    pub stands : Stands i all x rank
    pub low : Low i stands.back

  -- The search goes on at each of the cells, or at none of them.
  abbrev pub Answers : (S → Option StringObject → Bool) → Bool → ZHeap S → List (Cell S) → Type 0
  Answers go b h [] = Unit {0}
  Answers go b h (c ∷ r) =
      ((n : ZNode S) × (h c.addr ≡ some n) × (go n.score n.obj ≡ b)) × Answers go b h r

  Answers-at :
      (go : S → Option StringObject → Bool) (b : Bool) (h : ZHeap S) (xs : List (Cell S))
      (c : Cell S) (r : List (Cell S))
      → Answers go b h (xs ++ (c ∷ r))
      → (n : ZNode S) × (h c.addr ≡ some n) × (go n.score n.obj ≡ b)
  Answers-at go b h [] c r a = a.0
  Answers-at go b h (x ∷ xs) c r a = Answers-at go b h xs c r a.1

  Answers-behind :
      (go : S → Option StringObject → Bool) (b : Bool) (h : ZHeap S) (xs r : List (Cell S))
      → Answers go b h (xs ++ r)
      → Answers go b h r
  Answers-behind go b h [] r a = a
  Answers-behind go b h (x ∷ xs) r a = Answers-behind go b h xs r a.1

  pub Stands-entry :
      (h : ZHeap S) (all suf : List (Cell S)) (i x rank : ℕ) (s : Stands i all x rank)
      → Row h i (all ++ suf)
      → entry h x i ≡ some (next_at i (s.back ++ suf))
  Stands-entry h all suf i x rank s row =
      let e : all ++ suf ≡ s.front ++ (s.cell ∷ (s.back ++ suf)) =
        ap (λ l. l ++ suf) s.parts ∙ append_assoc s.front (s.cell ∷ s.back) suf in
      rw s.here (Row-at h i s.front s.cell (s.back ++ suf) (rw e at row) s.high)

  module _ (go : S → Option StringObject → Bool) (h : ZHeap S) (all suf : List (Cell S))
      (stop : Answers go false h suf) where
    -- The search stops where no cell up to the place has the level.
    walk-end :
        (fuel i x rank : ℕ) (s : Stands i all x rank)
        → Low i s.back
        → Row h i (all ++ suf)
        → walk go (suc fuel) h i x rank ≡ some (x, rank)
    unfolding walk
    walk-end fuel i x rank s low row = elim (first_high i suf) [
      | inl none_left ↦
          rw
            (
              Stands-entry h all suf i x rank s row,
              next_at-Low i s.back suf low,
              no_next suf none_left,
            )
            refl
      | inr (mid, d, r, e, low', high) ↦
          let (n, there, answer) = Answers-at go false h mid d r (rw e at stop) in
          let next : (next_at i suf).forward ≡ some d.addr =
            ap (λ l. (next_at i l).forward) e
            ∙ ap (λ l. l.forward) (next_at-high i mid d r low' high) in
          rw
            (
              Stands-entry h all suf i x rank s row,
              next_at-Low i s.back suf low,
              next,
              there,
              answer,
            )
            refl
    ]
      where
        no_next : (r : List (Cell S)) → Low i r → (next_at i r).forward ≡ none
        no_next [] l = refl
        no_next (c ∷ r) (short, l) = rw short (no_next r l)

    -- With the level of the header or of a node before the place, and fuel for the cells to the place.
    pub walk_lem :
        (fuel i x rank : ℕ) (s : Stands i all x rank)
        → Answers go true h s.back
        → length s.back < fuel
        → Row h i (all ++ suf)
        → (u : ℕ) × (r : ℕ) × (walk go fuel h i x rank ≡ some (u, r)) × Found i all u r
    unfolding walk
    walk_lem zero i x rank s goes room row = absurd (omega arith)
    walk_lem (suc fuel) i x rank s goes room row = elim (first_high i s.back) [
      | inl low ↦ (x, rank, walk-end fuel i x rank s low row, record { stands = s; low = low })
      | inr (mid, d, r, e, low, high) ↦
          let (n, there, answer) = Answers-at go true h mid d r (rw e at goes) in
          let step : entry h x i
              ≡ some (record { forward = some d.addr; span = suc (length mid) }) =
            Stands-entry h all suf i x rank s row
            ∙ ap (λ l. some (next_at i (l ++ suf))) e
            ∙ ap (λ l. some (next_at i l)) (append_assoc mid (d ∷ r) suf)
            ∙ ap some (next_at-high i mid d (r ++ suf) low high) in
          let s' : Stands i all d.addr (rank + suc (length mid)) = record {
            front = s.front ++ (s.cell ∷ mid);
            cell = d;
            back = r;
            parts =
                s.parts
                ∙ ap (λ l. s.front ++ (s.cell ∷ l)) e
                ∙ sym (append_assoc s.front (s.cell ∷ mid) (d ∷ r));
            here = refl;
            high = high;
            counts = omega (arith, s.counts, length-append s.front (s.cell ∷ mid));
          } in
          let (u, r', runs, found) =
            walk_lem fuel i d.addr (rank + suc (length mid)) s'
              (Answers-behind go true h (mid ++ (d ∷ [])) r
                (rw (append_assoc mid (d ∷ []) r, ← e) goes))
              (omega (arith, ap length e, length-append mid (d ∷ r))) row in
          (u, r', rw (step, there, answer) runs, found)
    ]

  -- The results on the levels from `i` up.
  abbrev pub FoundFrom : ℕ → List (Cell S) → List (ℕ × ℕ) → Type 0
  FoundFrom i all [] = Unit {0}
  FoundFrom i all (u ∷ us) = Found i all u.0 u.1 × FoundFrom (suc i) all us

  pub Stands-lower :
      (i j : ℕ) (all : List (Cell S)) (x rank : ℕ)
      → j ≤ i
      → Stands i all x rank
      → Stands j all x rank
  Stands-lower i j all x rank le s = record {
    front = s.front;
    cell = s.cell;
    back = s.back;
    parts = s.parts;
    here = s.here;
    high = lower s.high;
    counts = s.counts;
  }
    where
      lower : ltb i s.cell.height ≡ true → ltb j s.cell.height ≡ true
      lower e = ground arith

  module _ (go : S → Option StringObject → Bool) (h : ZHeap S) (head : Cell S)
      (pre suf : List (Cell S)) (goes : Answers go true h pre) (stop : Answers go false h suf) where
    pub behind_head :
        (front : List (Cell S)) (c : Cell S) (back : List (Cell S))
        → head ∷ pre ≡ front ++ (c ∷ back)
        → Answers go true h back × (length back ≤ length pre)
    behind_head [] c back e =
        let same : pre ≡ back = cc in (rw same at goes, omega (arith, ap length same))
    behind_head (f ∷ front) c back e =
        let same : pre ≡ front ++ (c ∷ back) = cc in
        (
          Answers-behind go true h (front ++ (c ∷ [])) back
              (rw (append_assoc front (c ∷ []) back, ← same) goes),
          omega (arith, ap length same, length-append front (c ∷ back)),
        )

    -- With the rows of the levels, and fuel for all cells up to the place, the search finds on each
    -- level the last node before the place that has it.
    pub search_lem :
        (fuel n x rank : ℕ) (found : List (ℕ × ℕ))
        → length pre < fuel
        → ((i : ℕ) → i < n → Row h i ((head ∷ pre) ++ suf))
        → ((i : ℕ) → i < n → Stands i (head ∷ pre) x rank)
        → FoundFrom n (head ∷ pre) found
        → (us : List (ℕ × ℕ)) × (search go fuel h n x rank found ≡ some us)
          × FoundFrom 0 (head ∷ pre) us
          × (length us ≡ n + length found)
    unfolding search
    search_lem fuel zero x rank found room rows stands so_far = (found, refl, so_far, omega arith)
    search_lem fuel (suc n) x rank found room rows stands so_far =
        let s = stands n (omega arith) in
        let (goes', short) = behind_head s.front s.cell s.back s.parts in
        let (u, r, runs, there) =
          walk_lem go h (head ∷ pre) suf stop fuel n x rank s goes' (omega arith)
            (rows n (omega arith)) in
        let (us, runs', all_found, len) =
          search_lem fuel n u r ((u, r) ∷ found) room (λ i less. rows i (omega arith))
            (λ i less. Stands-lower n i (head ∷ pre) u r (omega arith) there.stands)
            (there, so_far) in
        (us, rw runs runs', all_found, omega (arith, len))
