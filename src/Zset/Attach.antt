-- ===== src/Zset/Attach.antt =====
-- The pointers back and the tail after zslInsert of redis-2.6.12/src/t_zset.c linked a node.
use commit_redis.Prelude.{
  ℕ, ◌+◌, ◌≡◌, refl, sym, ◌∙◌, Bool, true, false, Bool-cases, inl, inr, none, some, List, [], ◌∷◌,
  ◌++◌, ltb, ◌==◌, if◌then◌else◌, arith,
}
use commit_redis.Zset.Defs.{Ptr, ZSkipList, ZHeap, entry, set_backward, attach}
use commit_redis.Zset.Cells.{Cell, next_at, NoDup, NoDup-apart, has, has-append}
use commit_redis.Zset.Splice.{shape, is_same}
use commit_redis.Zset.Valid.{
  last_ptr, Shapes, Heights, Shapes-append, append-Shapes, Shapes-same, set_backward_lem,
}

is_refl : (p : ℕ) → (p == p) ≡ true
is_refl p = ground arith

turned : (p q : ℕ) → (p == q) ≡ false → (q == p) ≡ false
turned p q e = ground arith

module _ {S : Type 0} where
  pub last_ptr-append :
      (q : Ptr) (xs ys : List (Cell S)) → last_ptr q (xs ++ ys) ≡ last_ptr (last_ptr q xs) ys
  last_ptr-append q [] ys = refl
  last_ptr-append q (x ∷ xs) ys = last_ptr-append (some x.addr) xs ys

  pub NoDup-cross :
      (xs ys : List (Cell S)) (p : ℕ) → NoDup (xs ++ ys) → has p xs ≡ true → has p ys ≡ false
  NoDup-cross [] ys p apart there = cc
  NoDup-cross (x ∷ xs) ys p (a, apart) there = elim (Bool-cases (x.addr == p)) [
    | inr other ↦ NoDup-cross xs ys p apart (rw other at there)
    | inl same ↦
        let e : x.addr ≡ p = is_same x.addr p same in ground (arith, has-append p xs ys, rw e at a)
  ]

  -- Only pointers back are written, at the new node and at the one behind it.
  pub record Attached (h g : ZHeap S) (x : ℕ) (cells suf : List (Cell S)) : Type 0 where
    pub entries : (p j : ℕ) → entry g p j ≡ entry h p j
    pub shapes : Shapes g none cells
    pub others : (p : ℕ) → (p == x) ≡ false → has p suf ≡ false → shape g p ≡ shape h p

  apart_from :
      (p a : ℕ) (xs : List (Cell S)) → has a xs ≡ false → has p xs ≡ true → (p == a) ≡ false
  apart_from p a xs out there = elim (Bool-cases (p == a)) [
    | inr other ↦ other
    | inl same ↦ let e : p ≡ a = is_same p a same in cc
  ]

  has-front : (p : ℕ) (xs ys : List (Cell S)) → has p xs ≡ true → has p (xs ++ ys) ≡ true
  has-front p xs ys there = has-append p xs ys ∙ rw there refl

  has-back : (p : ℕ) (xs ys : List (Cell S)) → has p ys ≡ true → has p (xs ++ ys) ≡ true
  has-back p xs ys there = has-append p xs ys ∙ rw there (if_true (has p xs))
    where
      if_true : (b : Bool) → (if b then true else true) ≡ true
      if_true true = refl
      if_true false = refl

  in_tail : (p : ℕ) (c : Cell S) (r : List (Cell S)) → has p r ≡ true → has p (c ∷ r) ≡ true
  in_tail p c r there = ground arith

  not_first :
      (p : ℕ) (c : Cell S) (r : List (Cell S)) → has p (c ∷ r) ≡ false → (p == c.addr) ≡ false
  not_first p c r out = ground arith

  module _ (pre : List (Cell S)) (z : Cell S) (zl : ZSkipList) (u0 lev : ℕ)
      (back : (if u0 == zl.header then none else some u0) ≡ last_ptr none pre) where
    attach_runs :
        (h h₁ h₂ : ZHeap S) (c : Cell S) (r : List (Cell S))
        → entry h z.addr 0 ≡ some (next_at 0 (c ∷ r))
        → ltb 0 c.height ≡ true
        → set_backward h z.addr (last_ptr none pre) ≡ some h₁
        → set_backward h₁ c.addr (some z.addr) ≡ some h₂
        → attach h zl z.addr u0 lev
          ≡ some (
            record { header = zl.header; tail = zl.tail; length = zl.length + 1; level = lev },
            h₂,
          )
    unfolding attach
    attach_runs h h₁ h₂ c r at_z high runs₁ runs₂ = rw (at_z, back, runs₁, high, runs₂) refl

    pub attach_lem :
        (h : ZHeap S) (suf : List (Cell S)) (q0 : Ptr)
        → entry h z.addr 0 ≡ some (next_at 0 suf)
        → Shapes h none (pre ++ suf)
        → shape h z.addr ≡ some (z.score, z.obj, q0, z.height)
        → has z.addr (pre ++ suf) ≡ false
        → NoDup (pre ++ suf)
        → Heights lev suf
        → zl.tail ≡ last_ptr none (pre ++ suf)
        → (zl' : ZSkipList) × (g : ZHeap S) × (attach h zl z.addr u0 lev ≡ some (zl', g))
          × (zl'.header ≡ zl.header)
          × (zl'.length ≡ zl.length + 1)
          × (zl'.level ≡ lev)
          × (zl'.tail ≡ last_ptr none (pre ++ (z ∷ suf)))
          × Attached h g z.addr (pre ++ (z ∷ suf)) suf
    unfolding attach
    attach_lem h [] q0 at_z shapes new fresh apart heights tail =
        let (g, runs, b) =
          set_backward_lem h z.addr (last_ptr none pre) z.score z.obj q0 z.height new in
        let (front, none_behind) = Shapes-append h none pre [] shapes in
        (
          record { header = zl.header; tail = some z.addr; length = zl.length + 1; level = lev },
          g,
          rw (at_z, back, runs) refl,
          refl,
          refl,
          refl,
          sym (last_ptr-append none pre (z ∷ [])),
          record {
            entries = b.entries;
            shapes =
                append-Shapes g none pre (z ∷ [])
                  (Shapes-same h g none pre front (λ p there.
                    b.others p (apart_from p z.addr (pre ++ []) fresh (has-front p pre [] there))))
                  (b.self z.score z.obj q0 z.height new, tt);
            others = λ p other out. b.others p other;
          },
        )
    attach_lem h (c ∷ r) q0 at_z shapes new fresh apart (some_level, few, heights) tail =
        let (h₁, runs₁, b₁) =
          set_backward_lem h z.addr (last_ptr none pre) z.score z.obj q0 z.height new in
        let (front, behind) = Shapes-append h none pre (c ∷ r) shapes in
        let high : ltb 0 c.height ≡ true = ground arith in
        let c_in : has c.addr (c ∷ r) ≡ true = rw (is_refl c.addr) refl in
        let c_not_z =
          apart_from c.addr z.addr (pre ++ (c ∷ r)) fresh (has-back c.addr pre (c ∷ r) c_in) in
        let z_not_c : (z.addr == c.addr) ≡ false = turned c.addr z.addr c_not_z in
        let c_shape : shape h₁ c.addr ≡ some (c.score, c.obj, last_ptr none pre, c.height) =
          b₁.others c.addr c_not_z ∙ behind.0 in
        let (h₂, runs₂, b₂) =
          set_backward_lem h₁ c.addr (some z.addr) c.score c.obj (last_ptr none pre) c.height
            c_shape in
        let same : (p : ℕ)
            → (p == c.addr) ≡ false
            → (p == z.addr) ≡ false
            → shape h₂ p ≡ shape h p =
          λ p not_c not_z. b₂.others p not_c ∙ b₁.others p not_z in
        let outside = NoDup-apart pre c r apart in
        (
          record { header = zl.header; tail = zl.tail; length = zl.length + 1; level = lev },
          h₂,
          attach_runs h h₁ h₂ c r at_z high runs₁ runs₂,
          refl,
          refl,
          refl,
          tail ∙ last_ptr-append none pre (c ∷ r) ∙ sym (last_ptr-append none pre (z ∷ c ∷ r)),
          record {
            entries = λ p j. b₂.entries p j ∙ b₁.entries p j;
            shapes =
                append-Shapes h₂ none pre (z ∷ c ∷ r)
                  (Shapes-same h h₂ none pre front (λ p there.
                    same p (apart_from p c.addr pre outside.0 there)
                      (apart_from p z.addr (pre ++ (c ∷ r)) fresh (has-front p pre (c ∷ r) there))))
                  (
                    b₂.others z.addr z_not_c ∙ b₁.self z.score z.obj q0 z.height new,
                    (
                      b₂.self c.score c.obj (last_ptr none pre) c.height c_shape,
                      Shapes-same h h₂ (some c.addr) r behind.1 (λ p there.
                          same p (apart_from p c.addr r outside.1 there) (
                            apart_from p z.addr (pre ++ (c ∷ r)) fresh
                              (has-back p pre (c ∷ r) (in_tail p c r there)))),
                    ),
                  );
            others = λ p other out. same p (not_first p c r out) other;
          },
        )
