-- ===== src/Zset/Unlink.antt =====
-- The loops of zslDeleteNode of redis-2.6.12/src/t_zset.c.
use commit_redis.Prelude.{
  ℕ, suc, ◌+◌, ◌-◌, ◌≡◌, refl, ap, ◌∙◌, true, false, ◌&&◌, Bool-cases, inl, inr, some, List, [],
  ◌∷◌, ◌++◌, ltb, leb, ◌==◌, length, arith,
}
use commit_redis.Zset.Defs.{ZLevel, ZHeap, entry, set_entry, is_node}
use commit_redis.Zset.Removal.{unlink}
use commit_redis.Zset.Cells.{
  Cell, next_at, Row, Low, NoDup, has, next_at-Low, next_at-high, Row-same, Row-behind,
}
use commit_redis.Zset.Search.{Found, FoundFrom, Stands-entry}
use commit_redis.Zset.Splice.{Wrote, set_entry_lem, Row-splice, is_same}
use commit_redis.Zset.Link.{Relinked, Relinked-step, Stands-has, other_node, other_level, no_levels}

module _ {S : Type 0} where
  -- A level points to one of the cells, or to none.
  next_at-other :
      (i x : ℕ) (r : List (Cell S)) → has x r ≡ false → is_node (next_at i r).forward x ≡ false
  next_at-other i x [] out = refl
  next_at-other i x (c ∷ r) out = elim (Bool-cases (ltb i c.height)) [
    | inl high ↦ rw high (ground arith)
    | inr short ↦ rw short (next_at-other i x r (ground arith))
  ]

  unlink_step :
      (h h₁ g : ZHeap S) (x i u r : ℕ) (us : List (ℕ × ℕ)) (l m : ZLevel)
      → entry h u i ≡ some l
      → is_node l.forward x ≡ true
      → entry h x i ≡ some m
      → set_entry h u i (record { forward = m.forward; span = l.span + m.span - 1 }) ≡ some h₁
      → unlink h₁ x (suc i) us ≡ some g
      → unlink h x i ((u, r) ∷ us) ≡ some g
  unfolding unlink
  unlink_step h h₁ g x i u r us l m e there e₁ e₂ e₃ = rw (e, there, e₁, e₂) e₃

  unlink_past :
      (h h₁ g : ZHeap S) (x i u r : ℕ) (us : List (ℕ × ℕ)) (l : ZLevel)
      → entry h u i ≡ some l
      → is_node l.forward x ≡ false
      → set_entry h u i (record { forward = l.forward; span = l.span - 1 }) ≡ some h₁
      → unlink h₁ x (suc i) us ≡ some g
      → unlink h x i ((u, r) ∷ us) ≡ some g
  unfolding unlink
  unlink_past h h₁ g x i u r us l e past e₂ e₃ = rw (e, past, e₂) e₃

  Wrote-is : (h g : ZHeap S) (u i : ℕ) (l l' : ZLevel) → l ≡ l' → Wrote h g u i l → Wrote h g u i l'
  Wrote-is h g u i l l' e w = rw e at w

  module _ (all suf : List (Cell S)) (z : Cell S) (apart : NoDup all) (out : has z.addr all ≡ false)
      (out_behind : has z.addr suf ≡ false)
      (cross : (p : ℕ) → has p all ≡ true → has p suf ≡ false) where
    not_in : (u p : ℕ) → has u all ≡ true → has p suf ≡ true → (p == u) ≡ false
    not_in u p here there = elim (Bool-cases (p == u)) [
      | inr other ↦ other
      | inl same ↦ let e : p ≡ u = is_same p u same in let gone = cross u here in cc
    ]

    not_z : (u : ℕ) → has u all ≡ true → (z.addr == u) ≡ false
    not_z u here = elim (Bool-cases (z.addr == u)) [
      | inr other ↦ other
      | inl same ↦ let e : z.addr ≡ u = is_same z.addr u same in cc
    ]

    -- One level, once what it should hold is written.
    without_z :
        (h g : ZHeap S) (i u r : ℕ) (f : Found i all u r) (l : ZLevel)
        → Row h i (all ++ (z ∷ suf))
        → Wrote h g u i l
        → l ≡ next_at i (f.stands.back ++ suf)
        → Row g i (all ++ suf)
    without_z h g i u r f l row wrote e =
        Row-splice h g i u r all (z ∷ suf) suf f apart row
          (λ p there other. wrote.others p i (other_node p u i other)) (wrote.self ∙ ap some e)
          (Row-same h g i suf (Row-behind h i all (z ∷ suf) row).1 (λ p there.
            wrote.others p i (other_node p u i (not_in u p (Stands-has i all u r f.stands) there))))

    -- What a level of the node before the place holds, and what it is to hold.
    to_z :
        (i : ℕ) (back : List (Cell S))
        → Low i back
        → ltb i z.height ≡ true
        → record {
          forward = (next_at i suf).forward;
          span = (next_at i (back ++ (z ∷ suf))).span + (next_at i suf).span - 1;
        }
          ≡ next_at i (back ++ suf)
    to_z i back low high =
        rw (next_at-high i back z suf low high, next_at-Low i back suf low)
          (ap (λ n. record { forward = (next_at i suf).forward; span = n }) (omega arith))

    past_z :
        (i : ℕ) (back : List (Cell S))
        → Low i back
        → ltb i z.height ≡ false
        → record {
          forward = (next_at i (back ++ (z ∷ suf))).forward;
          span = (next_at i (back ++ (z ∷ suf))).span - 1;
        }
          ≡ next_at i (back ++ suf)
    past_z i back low short =
        rw (next_at-Low i back (z ∷ suf) low, next_at-Low i back suf low, short)
          (ap (λ n. record { forward = (next_at i suf).forward; span = n }) (omega arith))

    forward_z :
        (i : ℕ) (back : List (Cell S))
        → Low i back
        → is_node (next_at i (back ++ (z ∷ suf))).forward z.addr ≡ ltb i z.height
    forward_z i back low = elim (Bool-cases (ltb i z.height)) [
      | inl high ↦ rw (next_at-high i back z suf low high, high) (ground arith)
      | inr short ↦
          rw (next_at-Low i back (z ∷ suf) low, short) (next_at-other i z.addr suf out_behind)
    ]

    z_apart : (u j i : ℕ) → has u all ≡ true → ((z.addr == u) && (j == i)) ≡ false
    z_apart u j i here = rw (not_z u here) refl

    unlink_one :
        (h : ZHeap S) (i u r : ℕ) (f : Found i all u r)
        → Row h i (all ++ (z ∷ suf))
        → (h₁ : ZHeap S) × Wrote h h₁ u i (next_at i (f.stands.back ++ suf))
          × ((us : List (ℕ × ℕ)) (g : ZHeap S)
              → unlink h₁ z.addr (suc i) us ≡ some g
              → unlink h z.addr i ((u, r) ∷ us) ≡ some g)
    unlink_one h i u r f row =
        let s = f.stands in
        let old = next_at i (s.back ++ (z ∷ suf)) in
        let at_u : entry h u i ≡ some old = Stands-entry h all (z ∷ suf) i u r s row in
        elim (Bool-cases (ltb i z.height)) [
          | inl high ↦
              let (h₁, runs, wrote) =
                set_entry_lem h u i old
                  (record {
                    forward = (next_at i suf).forward;
                    span = old.span + (next_at i suf).span - 1;
                  })
                  at_u in
              (
                h₁,
                Wrote-is h h₁ u i _ _ (to_z i s.back f.low high) wrote,
                λ us g rest.
                    unlink_step h h₁ g z.addr i u r us old (next_at i suf) at_u
                      (forward_z i s.back f.low ∙ high) ((Row-behind h i all (z ∷ suf) row).0 high)
                      runs rest,
              )
          | inr short ↦
              let (h₁, runs, wrote) =
                set_entry_lem h u i old (record { forward = old.forward; span = old.span - 1 })
                  at_u in
              (
                h₁,
                Wrote-is h h₁ u i _ _ (past_z i s.back f.low short) wrote,
                λ us g rest.
                    unlink_past h h₁ g z.addr i u r us old at_u (forward_z i s.back f.low ∙ short)
                      runs rest,
              )
        ]

    pub unlink_lem :
        (h : ZHeap S) (i : ℕ) (us : List (ℕ × ℕ))
        → FoundFrom i all us
        → ((j : ℕ) → (leb i j && ltb j (i + length us)) ≡ true → Row h j (all ++ (z ∷ suf)))
        → (g : ZHeap S) × (unlink h z.addr i us ≡ some g)
          × Relinked h g i (length us) (all ++ suf)
          × ((j : ℕ) → entry g z.addr j ≡ entry h z.addr j)
    unfolding unlink
    unlink_lem h i [] found rows = (
      h,
      refl,
      record {
        rows = λ j inside. absurd (no_levels i j inside);
        same = λ q j outside. refl;
        shapes = λ q. refl;
      },
      λ j. refl,
    )
    unlink_lem h i ((u, r) ∷ us) (f, fs) rows =
        let row = rows i (ground arith) in
        let (h₁, wrote, runs) = unlink_one h i u r f row in
        let (g, runs', rest, kept) = unlink_lem h₁ (suc i) us fs (λ j inside.
          Row-same h h₁ j (all ++ (z ∷ suf)) (rows j (ground arith))
            (λ p there. wrote.others p j (other_level p u j i (ground arith)))) in
        (
          g,
          runs us g runs',
          Relinked-step h h₁ g i (length us) (all ++ suf) (without_z h h₁ i u r f _ row wrote refl)
              (λ q j other. wrote.others q j (other_level q u j i other)) wrote.shapes rest,
          λ j. kept j ∙ wrote.others z.addr j (z_apart u j i (Stands-has i all u r f.stands)),
        )
