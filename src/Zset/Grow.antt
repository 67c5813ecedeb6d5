-- ===== src/Zset/Grow.antt =====
-- The levels that zslInsert of redis-2.6.12/src/t_zset.c adds to the header.
use commit_redis.Prelude.{
  ℕ, zero, suc, ◌+◌, ◌≤◌, ◌≡◌, refl, ap, ◌∙◌, Bool, true, false, ◌&&◌, Bool-cases, inl, inr, none,
  some, List, [], ◌∷◌, ◌++◌, ltb, leb, ◌==◌, length, replicate, arith,
}
use commit_redis.Zset.Defs.{ZLevel, ZSkipList, ZHeap, entry, add_levels}
use commit_redis.Zset.Cells.{Cell, next_at, Row, Low}
use commit_redis.Zset.Search.{FoundFrom}
use commit_redis.Zset.Splice.{shape, set_entry_lem, is_same}

no_levels : (i j : ℕ) → (leb i j && ltb j (i + 0)) ≡ true → ⊥
no_levels i j h = ground arith

pub and_false : (b : Bool) → (b && false) ≡ false
and_false true = refl
and_false false = refl

-- What is not on the levels from `i` on is not on those above, nor on that one.
pub outs :
    (b : Bool) (i j n : ℕ)
    → (b && (leb i j && ltb j (i + suc n))) ≡ false
    → ((b && (leb (suc i) j && ltb j (suc i + n))) ≡ false) × ((b && (j == i)) ≡ false)
outs false i j n e = (refl, refl)
outs true i j n e = (ground arith, ground arith)

module _ {S : Type 0} where
  -- The header has `n` levels more from `i` on, which point to the end.
  pub record Grown (h g : ZHeap S) (zl : ZSkipList) (i n : ℕ) : Type 0 where
    pub new :
        (j : ℕ)
        → (leb i j && ltb j (i + n)) ≡ true
        → entry g zl.header j ≡ some (record { forward = none; span = zl.length })
    pub same :
        (q j : ℕ)
        → ((q == zl.header) && (leb i j && ltb j (i + n))) ≡ false
        → entry g q j ≡ entry h q j
    pub shapes : (q : ℕ) → shape g q ≡ shape h q

  pub add_levels_lem :
      (h : ZHeap S) (zl : ZSkipList) (i n : ℕ)
      → ((j : ℕ)
          → (leb i j && ltb j (i + n)) ≡ true
          → (l : ZLevel) × (entry h zl.header j ≡ some l) × (l.forward ≡ none))
      → (g : ZHeap S) × (add_levels h zl i n ≡ some g) × Grown h g zl i n
  unfolding add_levels
  add_levels_lem h zl i zero unused = (
    h,
    refl,
    record {
      new = λ j inside. absurd (no_levels i j inside);
      same = λ q j outside. refl;
      shapes = λ q. refl;
    },
  )
  add_levels_lem h zl i (suc n) unused =
      let (l, there, ends) = unused i (ground arith) in
      let (h₁, runs, w) =
        set_entry_lem h zl.header i l (record { forward = l.forward; span = zl.length }) there in
      let elsewhere : (q j : ℕ) → (j == i) ≡ false → entry h₁ q j ≡ entry h q j =
        λ q j other. w.others q j (rw other (and_false (q == zl.header))) in
      let (g, runs', grown) = add_levels_lem h₁ zl (suc i) n (λ j inside.
        let (l', there', ends') = unused j (ground arith) in
        (l', elsewhere zl.header j (ground arith) ∙ there', ends')) in
      (
        g,
        rw (there, runs) runs',
        record {
          new = λ j inside. elim (Bool-cases (j == i)) [
            | inr other ↦ grown.new j (ground arith)
            | inl same ↦
                let e : j ≡ i = is_same j i same in
                rw e (
                  grown.same zl.header i (ground arith)
                  ∙ w.self
                  ∙ ap (λ q. some (record { forward = q; span = zl.length })) ends)
          ];
          same = λ q j outside.
              let (up, here) = outs (q == zl.header) i j n outside in
              grown.same q j up ∙ w.others q j here;
          shapes = λ q. grown.shapes q ∙ w.shapes q;
        },
      )

  pub next_at-none :
      (i : ℕ) (xs : List (Cell S))
      → Low i xs
      → next_at i xs ≡ record { forward = none; span = length xs }
  next_at-none i [] low = refl
  next_at-none i (x ∷ xs) (short, low) = rw (short, next_at-none i xs low) refl

  pub Row-none : (h : ZHeap S) (i : ℕ) (xs : List (Cell S)) → Low i xs → Row h i xs
  Row-none h i [] low = tt
  Row-none h i (x ∷ xs) (short, low) = ((λ high. cc), Row-none h i xs low)

  pub FoundFrom-append :
      (i : ℕ) (all : List (Cell S)) (us vs : List (ℕ × ℕ))
      → FoundFrom i all us
      → FoundFrom (i + length us) all vs
      → FoundFrom i all (us ++ vs)
  FoundFrom-append i all [] vs fs gs = let e : i + 0 ≡ i = omega arith in rw e at gs
  FoundFrom-append i all (u ∷ us) vs (f, fs) gs =
      let e : i + suc (length us) ≡ suc i + length us = omega arith in
      (f, FoundFrom-append (suc i) all us vs fs (rw e at gs))

  pub FoundFrom-header :
      (head : Cell S) (pre : List (Cell S)) (i n : ℕ)
      → i + n ≤ head.height
      → ((j : ℕ) → i ≤ j → Low j pre)
      → FoundFrom i (head ∷ pre) (replicate n (head.addr, 0))
  FoundFrom-header head pre i zero room low = tt
  FoundFrom-header head pre i (suc n) room low = (
    record {
      stands = record {
        front = [];
        cell = head;
        back = pre;
        parts = refl;
        here = refl;
        high = ground arith;
        counts = refl;
      };
      low = low i (omega arith);
    },
    FoundFrom-header head pre (suc i) n (omega arith) (λ j le. low j (omega arith)),
  )
