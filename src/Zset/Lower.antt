-- ===== src/Zset/Lower.antt =====
-- The loop of zslDeleteNode of redis-2.6.12/src/t_zset.c that lowers the level of the list.
use commit_redis.Prelude.{
  ℕ, zero, suc, ◌≤◌, ◌<◌, ◌≡◌, refl, ap, ◌∙◌, true, false, Bool-cases, inl, inr, none, some, List,
  [], ◌∷◌, ltb, ◌==◌, arith,
}
use commit_redis.Zset.Defs.{ZLevel, ZHeap, entry}
use commit_redis.Zset.Removal.{lower_level}
use commit_redis.Zset.Cells.{Cell, next_at, Low, next_at-high, first_high}
use commit_redis.Zset.Splice.{is_same}
use commit_redis.Zset.Valid.{Heights}

module _ {S : Type 0} where
  -- The level goes down to the highest that the header still points on from, or to one.
  pub record Lowered (h : ZHeap S) (header n k : ℕ) (cells : List (Cell S)) : Type 0 where
    pub some_level : 0 < k
    pub less : k ≤ n
    pub heights : Heights k cells
    pub unused :
        (j : ℕ) → k ≤ j → j < n → (l : ZLevel) × (entry h header j ≡ some l) × (l.forward ≡ none)

  Heights-Low :
      (n : ℕ) (cells : List (Cell S))
      → 0 < n
      → Heights (suc n) cells
      → Low n cells
      → Heights n cells
  Heights-Low n [] some_level hs low = tt
  Heights-Low n (c ∷ r) some_level (a, b, hs) (short, low) =
      (a, ground arith, Heights-Low n r some_level hs low)

  next_none : (i : ℕ) (r : List (Cell S)) → Low i r → (next_at i r).forward ≡ none
  next_none i [] low = refl
  next_none i (c ∷ r) (short, low) = rw short (next_none i r low)

  lower_on :
      (h : ZHeap S) (header n k : ℕ) (l : ZLevel)
      → ltb 0 n ≡ true
      → entry h header n ≡ some l
      → l.forward ≡ none
      → lower_level h header n ≡ some k
      → lower_level h header (suc n) ≡ some k
  unfolding lower_level
  lower_on h header n k l more e last runs = rw (more, e, last, lower_level) runs

  lower_stop :
      (h : ZHeap S) (header n y : ℕ) (l : ZLevel)
      → entry h header n ≡ some l
      → l.forward ≡ some y
      → lower_level h header (suc n) ≡ some (suc n)
  unfolding lower_level
  lower_stop h header n y l e next = elim (Bool-cases (ltb 0 n)) [
    | inl more ↦ rw (more, e, next, lower_level) refl
    | inr one ↦ rw (one, lower_level) refl
  ]

  lower_one :
      (h : ZHeap S) (header n : ℕ) → ltb 0 n ≡ false → lower_level h header (suc n) ≡ some (suc n)
  unfolding lower_level
  lower_one h header n one = rw (one, lower_level) refl

  pub lower_level_lem :
      (h : ZHeap S) (header n : ℕ) (cells : List (Cell S))
      → 0 < n
      → Heights n cells
      → ((j : ℕ) → j < n → entry h header j ≡ some (next_at j cells))
      → (k : ℕ) × (lower_level h header n ≡ some k) × Lowered h header n k cells
  lower_level_lem h header zero cells some_level heights at_header = absurd (omega arith)
  lower_level_lem h header (suc n) cells some_level heights at_header =
      elim (Bool-cases (ltb 0 n)) [
        | inr one ↦ (
          suc n,
          lower_one h header n one,
          record {
            some_level = omega arith;
            less = omega arith;
            heights = heights;
            unused = λ j le less. absurd (omega arith);
          },
        )
        | inl more ↦ elim (first_high n cells) [
          | inr (mid, d, r, e, low, high) ↦
              let next : (next_at n cells).forward ≡ some d.addr =
                ap (λ l. (next_at n l).forward) e
                ∙ ap (λ l. l.forward) (next_at-high n mid d r low high) in
              (
                suc n,
                lower_stop h header n d.addr _ (at_header n (omega arith)) next,
                record {
                  some_level = omega arith;
                  less = omega arith;
                  heights = heights;
                  unused = λ j le less. absurd (omega arith);
                },
              )
          | inl low ↦
              let (k, runs, lowered) =
                lower_level_lem h header n cells (ground arith)
                  (Heights-Low n cells (ground arith) heights low)
                  (λ j less. at_header j (omega arith)) in
              (
                k,
                lower_on h header n k _ more (at_header n (omega arith)) (next_none n cells low)
                    runs,
                record {
                  some_level = lowered.some_level;
                  less = omega (arith, lowered.less);
                  heights = lowered.heights;
                  unused = λ j le less. elim (Bool-cases (j == n)) [
                    | inl same ↦
                        let e : j ≡ n = is_same j n same in
                        rw e (next_at n cells, at_header n (omega arith), next_none n cells low)
                    | inr other ↦ lowered.unused j le (ground arith)
                  ];
                },
              )
        ]
      ]
