-- ===== src/Zset/Create.antt =====
-- zslCreate of redis-2.6.12/src/t_zset.c.
use commit_redis.Prelude.{
  ℕ, zero, suc, ◌+◌, ◌<◌, ◌≡◌, refl, ap, sym, ◌∙◌, Bool, true, false, ◌&&◌, Bool-cases, inl, inr,
  none, some, [], ltb, leb, ◌==◌, length-replicate, arith,
}
use commit_redis.Zset.Defs.{
  ZLevel, ZSkipList, ZHeap, zskiplist_maxlevel, entry, write, zsl_create_node, clear_levels,
  zsl_create,
}
use commit_redis.Zset.Cells.{Cell}
use commit_redis.Zset.Splice.{shape, shape-write_self, entry-write_self, set_entry_lem, is_same}
use commit_redis.Zset.Link.{no_levels}
use commit_redis.Zset.Valid.{IsSkipList, set_backward_lem}
use commit_redis.Zset.Grow.{Grown, and_false, outs}
use commit_redis.Zset.Added.{get_elem?-replicate}

inside_all : (j n : ℕ) → j < n → (leb 0 j && ltb j (0 + n)) ≡ true
inside_all j n less = ground arith

all_inside : (j n : ℕ) → (leb 0 j && ltb j (0 + n)) ≡ true → j < n
all_inside j n e = ground arith

module _ {S : Type 0} where
  clear_levels_lem :
      (h : ZHeap S) (zl : ZSkipList) (i n : ℕ)
      → zl.length ≡ 0
      → ((j : ℕ)
          → (leb i j && ltb j (i + n)) ≡ true
          → (l : ZLevel) × (entry h zl.header j ≡ some l))
      → (g : ZHeap S) × (clear_levels h zl.header i n ≡ some g) × Grown h g zl i n
  unfolding clear_levels
  clear_levels_lem h zl i zero empty there = (
    h,
    refl,
    record {
      new = λ j inside. absurd (no_levels i j inside);
      same = λ q j outside. refl;
      shapes = λ q. refl;
    },
  )
  clear_levels_lem h zl i (suc n) empty there =
      let (l, at_i) = there i (ground arith) in
      let (h₁, runs, w) =
        set_entry_lem h zl.header i l (record { forward = none; span = 0 }) at_i in
      let (g, runs', grown) = clear_levels_lem h₁ zl (suc i) n empty (λ j inside.
        let (l', at_j) = there j (ground arith) in
        (
          l',
          w.others zl.header j (rw (above i j n inside) (and_false (zl.header == zl.header)))
              ∙ at_j,
        )) in
      (
        g,
        rw runs runs',
        record {
          new = λ j inside. elim (Bool-cases (j == i)) [
            | inr other ↦ grown.new j (ground arith)
            | inl same ↦
                let e : j ≡ i = is_same j i same in
                rw e (
                  grown.same zl.header i (below (zl.header == zl.header) i n)
                  ∙ w.self
                  ∙ ap (λ k. some (record { forward = none; span = k })) (sym empty))
          ];
          same = λ q j outside.
              let (up, here) = outs (q == zl.header) i j n outside in
              grown.same q j up ∙ w.others q j here;
          shapes = λ q. grown.shapes q ∙ w.shapes q;
        },
      )
    where
      above : (i j n : ℕ) → (leb (suc i) j && ltb j (suc i + n)) ≡ true → (j == i) ≡ false
      above i j n e = ground arith

      below : (b : Bool) (i n : ℕ) → (b && (leb (suc i) i && ltb i (suc i + n))) ≡ false
      below false i n = refl
      below true i n = ground arith

  -- Over any heap and memory, zslCreate runs without a fault and gives a valid skip list of no nodes.
  pub zsl_create_lem :
      (zero_score : S) (x : ℕ) (junk : ZLevel) (h : ZHeap S)
      → (zl : ZSkipList) × (g : ZHeap S) × (zsl_create zero_score x junk h ≡ some (zl, g))
        × IsSkipList g zl []
  unfolding zsl_create
  zsl_create_lem zero_score x junk h =
      let n = zsl_create_node junk zskiplist_maxlevel zero_score none in
      let zl : ZSkipList = record { header = x; tail = none; length = 0; level = 1 } in
      let head : Cell S = record {
        addr = x;
        score = zero_score;
        obj = none;
        height = zskiplist_maxlevel;
      } in
      let h₀ = write h x n in
      let (h₁, runs₁, cleared) = clear_levels_lem h₀ zl 0 zskiplist_maxlevel refl (λ j inside. (
        junk,
        entry-write_self h x j n
            ∙ get_elem?-replicate zskiplist_maxlevel j junk
                (all_inside j zskiplist_maxlevel inside),
      )) in
      let shape_x : shape h₁ x ≡ some (zero_score, none, none, zskiplist_maxlevel) =
        cleared.shapes x
        ∙ shape-write_self h x n
        ∙ ap (λ k. some (zero_score, none, none, k)) (length-replicate zskiplist_maxlevel junk) in
      let (h₂, runs₂, backed) =
        set_backward_lem h₁ x none zero_score none none zskiplist_maxlevel shape_x in
      let at_level : (j : ℕ)
          → j < zskiplist_maxlevel
          → entry h₂ x j ≡ some (record { forward = none; span = 0 }) =
        λ j less. backed.entries x j ∙ cleared.new j (inside_all j zskiplist_maxlevel less) in
      (
        zl,
        h₂,
        rw (runs₁, runs₂) refl,
        record {
          head = head;
          at_head = refl;
          head_height = refl;
          head_shape = (none, backed.self zero_score none none zskiplist_maxlevel shape_x);
          rows = λ j less. ((λ high. at_level j (omega arith)), tt);
          unused = λ j le less. (record { forward = none; span = 0 }, at_level j less, refl);
          shapes = tt;
          heights = tt;
          apart = (refl, tt);
          tail = refl;
          len = refl;
          level = (omega arith, omega arith);
        },
      )
