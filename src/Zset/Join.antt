-- ===== src/Zset/Join.antt =====
-- What zslDeleteNode of redis-2.6.12/src/t_zset.c does after its loop over the levels.
use commit_redis.Prelude.{
  ℕ, ◌-◌, ◌≡◌, refl, ap, sym, ◌∙◌, false, none, some, List, [], ◌∷◌, ◌++◌, ◌==◌, arith,
}
use commit_redis.Zset.Defs.{Ptr, ZLevel, ZNode, ZSkipList, ZHeap, entry, set_backward}
use commit_redis.Zset.Removal.{unlink, lower_level, zsl_delete_node}
use commit_redis.Zset.Cells.{Cell, next_at, NoDup, NoDup-apart, has, has-append}
use commit_redis.Zset.Splice.{shape}
use commit_redis.Zset.Valid.{
  last_ptr, Shapes, Heights, append-Shapes, Shapes-same, set_backward_lem,
}
use commit_redis.Zset.Attach.{last_ptr-append}
use commit_redis.Zset.Insert.{apart_from}

module _ {S : Type 0} where
  -- The pointer back of the next node, or the tail, takes that of the node.
  pub record Joined (g g₂ : ZHeap S) (header : ℕ) (cells : List (Cell S)) (t : Ptr) : Type 0 where
    pub entries : (p j : ℕ) → entry g₂ p j ≡ entry g p j
    pub shapes : Shapes g₂ none cells
    pub at_header : shape g₂ header ≡ shape g header
    pub tail : t ≡ last_ptr none cells

  last_runs :
      (h g : ZHeap S) (zl : ZSkipList) (x k : ℕ) (us : List (ℕ × ℕ)) (l : ZLevel) (n : ZNode S)
      → unlink h x 0 us ≡ some g
      → entry g x 0 ≡ some l
      → l.forward ≡ none
      → g x ≡ some n
      → lower_level g zl.header zl.level ≡ some k
      → zsl_delete_node h zl x us
        ≡ some
            (record { header = zl.header; tail = n.backward; length = zl.length - 1; level = k }, g)
  unfolding zsl_delete_node
  last_runs h g zl x k us l n e₁ e₂ last there e₃ = rw (e₁, e₂, there, last, e₃) refl

  next_runs :
      (h g g₂ : ZHeap S) (zl : ZSkipList) (x k y : ℕ) (us : List (ℕ × ℕ)) (l : ZLevel) (n : ZNode S)
      → unlink h x 0 us ≡ some g
      → entry g x 0 ≡ some l
      → l.forward ≡ some y
      → g x ≡ some n
      → set_backward g y n.backward ≡ some g₂
      → lower_level g₂ zl.header zl.level ≡ some k
      → zsl_delete_node h zl x us
        ≡ some
            (record { header = zl.header; tail = zl.tail; length = zl.length - 1; level = k }, g₂)
  unfolding zsl_delete_node
  next_runs h g g₂ zl x k y us l n e₁ e₂ next there e₃ e₄ = rw (e₁, e₂, there, next, e₃, e₄) refl

  not_first :
      (p : ℕ) (c : Cell S) (r : List (Cell S)) → has p (c ∷ r) ≡ false → (p == c.addr) ≡ false
  not_first p c r out = ground arith

  after : (p : ℕ) (xs ys : List (Cell S)) → has p (xs ++ ys) ≡ false → has p ys ≡ false
  after p xs ys out = ground (arith, has-append p xs ys)

  tail_high :
      (n : ℕ) (c : Cell S) (r : List (Cell S))
      → Heights n (c ∷ r)
      → (next_at 0 (c ∷ r)).forward ≡ some c.addr
  tail_high n c r (some_level, few, hs) = ground arith

  module _ (h g : ZHeap S) (zl : ZSkipList) (pre : List (Cell S)) (z : Cell S) (us : List (ℕ × ℕ))
      (n : ZNode S) (runs : unlink h z.addr 0 us ≡ some g) (there : g z.addr ≡ some n)
      (back : n.backward ≡ last_ptr none pre) (front : Shapes g none pre) where
    pub join_lem :
        (suf : List (Cell S))
        → entry g z.addr 0 ≡ some (next_at 0 suf)
        → Shapes g (some z.addr) suf
        → Heights zl.level suf
        → NoDup (pre ++ suf)
        → has zl.header (pre ++ suf) ≡ false
        → zl.tail ≡ last_ptr none (pre ++ (z ∷ suf))
        → (g₂ : ZHeap S) × (t : Ptr) × Joined g g₂ zl.header (pre ++ suf) t
          × ((k : ℕ)
              → lower_level g₂ zl.header zl.level ≡ some k
              → zsl_delete_node h zl z.addr us
                ≡ some (
                  record { header = zl.header; tail = t; length = zl.length - 1; level = k },
                  g₂,
                ))
    join_lem [] at_z behind heights apart header_out tail_is = (
      g,
      n.backward,
      record {
        entries = λ p j. refl;
        shapes = append-Shapes g none pre [] front tt;
        at_header = refl;
        tail = back ∙ sym (last_ptr-append none pre []);
      },
      λ k e. last_runs h g zl z.addr k us (next_at {S = S} 0 []) n runs at_z refl there e,
    )
    join_lem (c ∷ r) at_z (shape_c, behind) heights apart header_out tail_is =
        let (g₂, runs₂, backed) =
          set_backward_lem g c.addr n.backward c.score c.obj (some z.addr) c.height shape_c in
        let (out_front, out_back) = NoDup-apart pre c r apart in
        (
          g₂,
          zl.tail,
          record {
            entries = backed.entries;
            shapes =
                append-Shapes g₂ none pre (c ∷ r)
                  (Shapes-same g g₂ none pre front
                    (λ p is. backed.others p (apart_from p c.addr pre out_front is)))
                  (
                    backed.self c.score c.obj (some z.addr) c.height shape_c
                        ∙ ap (λ q. some (c.score, c.obj, q, c.height)) back,
                    Shapes-same g g₂ (some c.addr) r behind
                        (λ p is. backed.others p (apart_from p c.addr r out_back is)),
                  );
            at_header =
                backed.others zl.header
                  (not_first zl.header c r (after zl.header pre (c ∷ r) header_out));
            tail =
                tail_is
                ∙ last_ptr-append none pre (z ∷ c ∷ r)
                ∙ sym (last_ptr-append none pre (c ∷ r));
          },
          λ k e.
              next_runs h g g₂ zl z.addr k c.addr us (next_at 0 (c ∷ r)) n runs at_z
                (tail_high zl.level c r heights) there runs₂ e,
        )
