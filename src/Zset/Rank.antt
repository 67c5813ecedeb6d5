-- ===== src/Zset/Rank.antt =====
-- The loop of zslGetElementByRank of redis-2.6.12/src/t_zset.c.
use mathlib.Core.List.{append_assoc}
use commit_redis.Prelude.{
  ℕ, zero, suc, ◌+◌, ◌≤◌, ◌<◌, ◌≡◌, refl, ap, sym, ◌∙◌, true, false, Bool-cases, ◌⊎◌, inl, inr,
  none, some, List, [], ◌∷◌, ◌++◌, leb, length, length-append, arith,
}
use commit_redis.Zset.Defs.{Ptr, ZLevel, ZHeap, entry}
use commit_redis.Zset.Lookup.{walk_rank}
use commit_redis.Zset.Cells.{Cell, next_at, Row, Low, next_at-high, first_high, Row-at}
use commit_redis.Zset.Search.{Stands}

module _ {S : Type 0} where
  -- The address of the node of that rank, which counts the header as 0.
  abbrev pub ranked : List (Cell S) → ℕ → Ptr
  ranked [] rank = none
  ranked (c ∷ r) zero = some c.addr
  ranked (c ∷ r) (suc rank) = ranked r rank

  pub ranked-at :
      (front : List (Cell S)) (c : Cell S) (back : List (Cell S))
      → ranked (front ++ (c ∷ back)) (length front) ≡ some c.addr
  ranked-at [] c back = refl
  ranked-at (x ∷ front) c back = ranked-at front c back

  pub ranked-end :
      (cells : List (Cell S)) (rank : ℕ) → length cells ≤ rank → ranked cells rank ≡ none
  ranked-end [] rank le = refl
  ranked-end (x ∷ r) zero le = absurd (omega arith)
  ranked-end (x ∷ r) (suc rank) le = ranked-end r rank (omega arith)

  walk-end :
      (rank fuel : ℕ) (h : ZHeap S) (i x traversed : ℕ) (l : ZLevel)
      → entry h x i ≡ some l
      → l.forward ≡ none
      → walk_rank rank (suc fuel) h i x traversed ≡ some (x, traversed)
  unfolding walk_rank
  walk-end rank fuel h i x traversed l e last = rw (e, last) refl

  walk-stop :
      (rank fuel : ℕ) (h : ZHeap S) (i x traversed y : ℕ) (l : ZLevel)
      → entry h x i ≡ some l
      → l.forward ≡ some y
      → leb (traversed + l.span) rank ≡ false
      → walk_rank rank (suc fuel) h i x traversed ≡ some (x, traversed)
  unfolding walk_rank
  walk-stop rank fuel h i x traversed y l e next far = rw (e, next, far) refl

  walk-on :
      (rank fuel : ℕ) (h : ZHeap S) (i x traversed y : ℕ) (l : ZLevel) (u : ℕ × ℕ)
      → entry h x i ≡ some l
      → l.forward ≡ some y
      → leb (traversed + l.span) rank ≡ true
      → walk_rank rank fuel h i y (traversed + l.span) ≡ some u
      → walk_rank rank (suc fuel) h i x traversed ≡ some u
  unfolding walk_rank
  walk-on rank fuel h i x traversed y l u e next near runs = rw (e, next, near) runs

  -- Where the walk on level `i` ends: at no higher rank, and the next node with that level is beyond.
  pub record Stopped (rank i : ℕ) (all : List (Cell S)) (u r : ℕ) : Type 0 where
    pub stands : Stands i all u r
    pub before : r ≤ rank
    pub beyond :
        Low i stands.back
        ⊎ ((mid : List (Cell S)) × (d : Cell S) × (behind : List (Cell S)) × (stands.back
              ≡ mid ++ (d ∷ behind))
            × Low i mid
            × (rank < r + suc (length mid)))

  module _ (rank : ℕ) (h : ZHeap S) (all : List (Cell S)) where
    at_stand :
        (i x r : ℕ) (s : Stands i all x r) → Row h i all → entry h x i ≡ some (next_at i s.back)
    at_stand i x r s row =
        ap (λ p. entry h p i) s.here ∙ Row-at h i s.front s.cell s.back (rw s.parts at row) s.high

    pub walk_rank_lem :
        (fuel i x r : ℕ) (s : Stands i all x r)
        → r ≤ rank
        → length s.back < fuel
        → Row h i all
        → (u : ℕ) × (r' : ℕ) × (walk_rank rank fuel h i x r ≡ some (u, r'))
          × Stopped rank i all u r'
    walk_rank_lem zero i x r s before room row = absurd (omega arith)
    walk_rank_lem (suc fuel) i x r s before room row = elim (first_high i s.back) [
      | inl low ↦ (
        x,
        r,
        walk-end rank fuel h i x r (next_at i s.back) (at_stand i x r s row) (no_next i s.back low),
        record { stands = s; before = before; beyond = inl low },
      )
      | inr (mid, d, back, e, low, high) ↦
          let l : ZLevel = record { forward = some d.addr; span = suc (length mid) } in
          let step : entry h x i ≡ some l =
            at_stand i x r s row
            ∙ ap (λ c. some (next_at i c)) e
            ∙ ap some (next_at-high i mid d back low high) in
          elim (Bool-cases (leb (r + suc (length mid)) rank)) [
            | inr far ↦ (
              x,
              r,
              walk-stop rank fuel h i x r d.addr l step refl far,
              record {
                stands = s;
                before = before;
                beyond = inr (mid, d, back, e, low, beyond (length mid) r far);
              },
            )
            | inl near ↦
                let s' : Stands i all d.addr (r + suc (length mid)) = record {
                  front = s.front ++ (s.cell ∷ mid);
                  cell = d;
                  back = back;
                  parts =
                      s.parts
                      ∙ ap (λ c. s.front ++ (s.cell ∷ c)) e
                      ∙ sym (append_assoc s.front (s.cell ∷ mid) (d ∷ back));
                  here = refl;
                  high = high;
                  counts = omega (arith, s.counts, length-append s.front (s.cell ∷ mid));
                } in
                let (u, r', runs, stopped) =
                  walk_rank_lem fuel i d.addr (r + suc (length mid)) s'
                    (at_most (length mid) r near)
                    (omega (arith, ap length e, length-append mid (d ∷ back))) row in
                (u, r', walk-on rank fuel h i x r d.addr l (u, r') step refl near runs, stopped)
          ]
    ]
      where
        no_next : (i : ℕ) (r : List (Cell S)) → Low i r → (next_at i r).forward ≡ none
        no_next i [] l = refl
        no_next i (c ∷ r) (short, l) = rw short (no_next i r l)

        beyond : (m r : ℕ) → leb (r + suc m) rank ≡ false → rank < r + suc m
        beyond m r e = ground arith

        at_most : (m r : ℕ) → leb (r + suc m) rank ≡ true → r + suc m ≤ rank
        at_most m r e = ground arith
