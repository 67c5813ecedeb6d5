-- ===== src/Zset/Link.antt =====
-- The loops of zslInsert of redis-2.6.12/src/t_zset.c that link a node on its levels.
use commit_redis.Prelude.{
  ℕ, zero, suc, ◌+◌, ◌-◌, ◌≤◌, ◌≡◌, refl, ap, sym, ◌∙◌, Bool, true, false, ◌&&◌, Bool-cases, inl,
  inr, some, List, [], ◌∷◌, ◌++◌, ltb, leb, ◌==◌, if◌then◌else◌, length, length-append, arith,
}
use commit_redis.Zset.Defs.{ZLevel, ZHeap, entry, set_entry, span_up, link}
use commit_redis.Zset.Cells.{
  Cell, next_at, Row, Low, NoDup, has, next_at-Low, next_at-high, Row-same, Row-behind, has-append,
}
use commit_redis.Zset.Search.{Stands, FoundFrom, Stands-entry}
use commit_redis.Zset.Splice.{shape, set_entry_lem, Row-splice}

pub is_refl : (p : ℕ) → (p == p) ≡ true
is_refl p = ground arith

is_same : (p q : ℕ) → (p == q) ≡ true → p ≡ q
is_same p q e = ground arith

if_true : (b : Bool) → (if b then true else true) ≡ true
if_true true = refl
if_true false = refl

pub other_node : (p u i : ℕ) → (p == u) ≡ false → ((p == u) && (i == i)) ≡ false
other_node p u i e = rw e refl

pub other_level : (p u j i : ℕ) → (j == i) ≡ false → ((p == u) && (j == i)) ≡ false
other_level p u j i e = rw e (and_false (p == u))
  where
    and_false : (b : Bool) → (b && false) ≡ false
    and_false true = refl
    and_false false = refl

pub no_levels : (i j : ℕ) → (leb i j && ltb j (i + 0)) ≡ true → ⊥
no_levels i j h = ground arith

module _ {S : Type 0} where
  -- On `k` levels from `i` on the cells in a row are new, and the other levels are the same.
  pub record Relinked (h g : ZHeap S) (i k : ℕ) (cells : List (Cell S)) : Type 0 where
    pub rows : (j : ℕ) → (leb i j && ltb j (i + k)) ≡ true → Row g j cells
    pub same : (q j : ℕ) → (leb i j && ltb j (i + k)) ≡ false → entry g q j ≡ entry h q j
    pub shapes : (q : ℕ) → shape g q ≡ shape h q

  pub Stands-has : (i : ℕ) (all : List (Cell S)) (u r : ℕ) → Stands i all u r → has u all ≡ true
  Stands-has i all u r s =
      let e : (s.cell.addr == u) ≡ true = rw s.here (is_refl s.cell.addr) in
      ap (has u) s.parts ∙ has-append u s.front (s.cell ∷ s.back) ∙ rw e (if_true (has u s.front))

  -- One level after another.
  pub Relinked-step :
      (h g₁ g : ZHeap S) (i k : ℕ) (cells : List (Cell S))
      → Row g₁ i cells
      → ((q j : ℕ) → (j == i) ≡ false → entry g₁ q j ≡ entry h q j)
      → ((q : ℕ) → shape g₁ q ≡ shape h q)
      → Relinked g₁ g (suc i) k cells
      → Relinked h g i (suc k) cells
  Relinked-step h g₁ g i k cells row others shapes rest = record {
    rows = λ j inside. elim (Bool-cases (j == i)) [
      | inl at ↦
          let e : j ≡ i = is_same j i at in
          rw e (Row-same g₁ g i cells row (λ p there. rest.same p i (ground arith)))
      | inr other ↦ rest.rows j (ground arith)
    ];
    same = λ q j outside. rest.same q j (ground arith) ∙ others q j (ground arith);
    shapes = λ q. rest.shapes q ∙ shapes q;
  }

  link_runs :
      (h h₁ h₂ g : ZHeap S) (x rank0 i n u r : ℕ) (us : List (ℕ × ℕ)) (l : ZLevel)
      → entry h u i ≡ some l
      → set_entry h x i (record { forward = l.forward; span = l.span - (rank0 - r) }) ≡ some h₁
      → set_entry h₁ u i (record { forward = some x; span = (rank0 - r) + 1 }) ≡ some h₂
      → link h₂ x rank0 (suc i) n us ≡ some g
      → link h x rank0 i (suc n) ((u, r) ∷ us) ≡ some g
  unfolding link
  link_runs h h₁ h₂ g x rank0 i n u r us l e e₁ e₂ e₃ = rw (e, e₁, e₂) e₃

  module _ (all suf : List (Cell S)) (z : Cell S) (apart : NoDup all)
      (fresh : has z.addr all ≡ false) (fresh_behind : has z.addr suf ≡ false)
      (cross : (p : ℕ) → has p all ≡ true → has p suf ≡ false) where
    -- A node of the list is none of those behind the place.
    not_in : (u p : ℕ) → has u all ≡ true → has p suf ≡ true → (p == u) ≡ false
    not_in u p here there = elim (Bool-cases (p == u)) [
      | inr other ↦ other
      | inl same ↦ let e : p ≡ u = is_same p u same in let gone = cross u here in cc
    ]

    span_one :
        (i : ℕ) (back : List (Cell S))
        → Low i back
        → ltb i z.height ≡ false
        → record {
          forward = (next_at i (back ++ suf)).forward;
          span = (next_at i (back ++ suf)).span + 1;
        }
          ≡ next_at i (back ++ (z ∷ suf))
    span_one i back low short =
        rw (next_at-Low i back suf low, next_at-Low i back (z ∷ suf) low, short)
          (ap (λ n. record { forward = (next_at i suf).forward; span = n }) (omega arith))

    span_up_lem :
        (h : ZHeap S) (i : ℕ) (us : List (ℕ × ℕ))
        → FoundFrom i all us
        → ltb i z.height ≡ false
        → ((j : ℕ) → (leb i j && ltb j (i + length us)) ≡ true → Row h j (all ++ suf))
        → (g : ZHeap S) × (span_up h i us ≡ some g) × Relinked h g i (length us) (all ++ (z ∷ suf))
    unfolding span_up
    span_up_lem h i [] found short rows = (
      h,
      refl,
      record {
        rows = λ j inside. absurd (no_levels i j inside);
        same = λ q j outside. refl;
        shapes = λ q. refl;
      },
    )
    span_up_lem h i ((u, r) ∷ us) (f, fs) short rows =
        let s = f.stands in
        let row = rows i (ground arith) in
        let old = next_at i (s.back ++ suf) in
        let at_u : entry h u i ≡ some old = Stands-entry h all suf i u r s row in
        let (g₁, runs, wrote) =
          set_entry_lem h u i old (record { forward = old.forward; span = old.span + 1 }) at_u in
        let row₁ : Row g₁ i (all ++ (z ∷ suf)) =
          Row-splice h g₁ i u r all suf (z ∷ suf) f apart row
            (λ p there other. wrote.others p i (other_node p u i other))
            (wrote.self ∙ ap some (span_one i s.back f.low short))
            (
              (λ high. cc),
              Row-same h g₁ i suf (Row-behind h i all suf row) (λ p there.
                  wrote.others p i (other_node p u i (not_in u p (Stands-has i all u r s) there))),
            ) in
        let (g, runs', rest) = span_up_lem g₁ (suc i) us fs (ground arith) (λ j inside.
          Row-same h g₁ j (all ++ suf) (rows j (ground arith))
            (λ p there. wrote.others p j (other_level p u j i (ground arith)))) in
        (
          g,
          rw (at_u, runs) runs',
          Relinked-step h g₁ g i (length us) (all ++ (z ∷ suf)) row₁
              (λ q j other. wrote.others q j (other_level q u j i other)) wrote.shapes rest,
        )

    -- The node has a level of its own for each of those to link.
    abbrev pub HasLevels : ZHeap S → ℕ → Type 0
    HasLevels h i =
        (j : ℕ) → (leb i j && ltb j z.height) ≡ true → (l : ZLevel) × (entry h z.addr j ≡ some l)

    not_new : (p : ℕ) → has p all ≡ true → (p == z.addr) ≡ false
    not_new p there = elim (Bool-cases (p == z.addr)) [
      | inr other ↦ other
      | inl same ↦ let e : p ≡ z.addr = is_same p z.addr same in cc
    ]

    not_new_behind : (p : ℕ) → has p suf ≡ true → (p == z.addr) ≡ false
    not_new_behind p there = elim (Bool-cases (p == z.addr)) [
      | inr other ↦ other
      | inl same ↦ let e : p ≡ z.addr = is_same p z.addr same in cc
    ]

    -- The spans on both sides of the new node.
    crossed :
        (i u r rank0 : ℕ) (s : Stands i all u r)
        → rank0 + 1 ≡ length all
        → rank0 - r ≡ length s.back
    crossed i u r rank0 s e =
        omega (arith, s.counts, ap length s.parts, length-append s.front (s.cell ∷ s.back))

    pub link_lem :
        (h : ZHeap S) (rank0 i n : ℕ) (us : List (ℕ × ℕ))
        → FoundFrom i all us
        → z.height ≡ i + n
        → n ≤ length us
        → rank0 + 1 ≡ length all
        → HasLevels h i
        → ((j : ℕ) → (leb i j && ltb j (i + length us)) ≡ true → Row h j (all ++ suf))
        → (g : ZHeap S) × (link h z.addr rank0 i n us ≡ some g)
          × Relinked h g i (length us) (all ++ (z ∷ suf))
    unfolding link
    link_lem h rank0 i zero us found tall le rank levels rows =
        span_up_lem h i us found (ground arith) rows
    link_lem h rank0 i (suc n) [] found tall le rank levels rows = absurd (omega arith)
    link_lem h rank0 i (suc n) ((u, r) ∷ us) (f, fs) tall le rank levels rows =
        let s = f.stands in
        let row = rows i (ground arith) in
        let high : ltb i z.height ≡ true = ground arith in
        let old = next_at i (s.back ++ suf) in
        let (junk, at_z) = levels i (ground arith) in
        let at_u : entry h u i ≡ some old = Stands-entry h all suf i u r s row in
        let (h₁, runs₁, w₁) =
          set_entry_lem h z.addr i junk
            (record { forward = old.forward; span = old.span - (rank0 - r) }) at_z in
        let in_all = Stands-has i all u r s in
        let (h₂, runs₂, w₂) =
          set_entry_lem h₁ u i old (record { forward = some z.addr; span = (rank0 - r) + 1 })
            (w₁.others u i (other_node u z.addr i (not_new u in_all)) ∙ at_u) in
        let both : (p : ℕ) → (p == u) ≡ false → (p == z.addr) ≡ false → entry h₂ p i ≡ entry h p i =
          λ p not_u not_z.
            w₂.others p i (other_node p u i not_u) ∙ w₁.others p i (other_node p z.addr i not_z) in
        let row₂ : Row h₂ i (all ++ (z ∷ suf)) =
          Row-splice h h₂ i u r all suf (z ∷ suf) f apart row
            (λ p there not_u. both p not_u (not_new p there))
            (w₂.self ∙ ap some (to_new i s.back f.low high (crossed i u r rank0 s rank)))
            (
              (λ high'.
                  w₂.others z.addr i (other_node z.addr u i (apart_from u in_all))
                  ∙ w₁.self
                  ∙ ap some (from_new i s.back f.low (crossed i u r rank0 s rank))),
              Row-same h h₂ i suf (Row-behind h i all suf row)
                  (λ p there. both p (not_in u p in_all there) (not_new_behind p there)),
            ) in
        let levels_else : (q j : ℕ) → (j == i) ≡ false → entry h₂ q j ≡ entry h q j = λ q j other.
          w₂.others q j (other_level q u j i other)
          ∙ w₁.others q j (other_level q z.addr j i other) in
        let (g, runs', rest) =
          link_lem h₂ rank0 (suc i) n us fs (omega arith) (omega arith) rank
            (λ j inside.
              let (l, e) = levels j (ground arith) in (l, levels_else z.addr j (ground arith) ∙ e))
            (λ j inside.
              Row-same h h₂ j (all ++ suf) (rows j (ground arith))
                (λ p there. levels_else p j (ground arith))) in
        (
          g,
          link_runs h h₁ h₂ g z.addr rank0 i n u r us old at_u runs₁ runs₂ runs',
          Relinked-step h h₂ g i (length us) (all ++ (z ∷ suf)) row₂ levels_else
              (λ q. w₂.shapes q ∙ w₁.shapes q) rest,
        )
      where
        apart_from : (u : ℕ) → has u all ≡ true → (z.addr == u) ≡ false
        apart_from u there = let e = not_new u there in ground arith

        to_new :
            (i : ℕ) (back : List (Cell S))
            → Low i back
            → ltb i z.height ≡ true
            → {k : ℕ} → k ≡ length back
            → record { forward = some z.addr; span = k + 1 } ≡ next_at i (back ++ (z ∷ suf))
        to_new i back low high {k} e =
            ap (λ n. record { forward = some z.addr; span = n }) (omega (arith, e))
            ∙ sym (next_at-high i back z suf low high)

        from_new :
            (i : ℕ) (back : List (Cell S))
            → Low i back
            → {k : ℕ} → k ≡ length back
            → record {
              forward = (next_at i (back ++ suf)).forward;
              span = (next_at i (back ++ suf)).span - k;
            }
              ≡ next_at i suf
        from_new i back low {k} e =
            rw (next_at-Low i back suf low)
              (ap (λ n. record { forward = (next_at i suf).forward; span = n }) (omega (arith, e)))
