-- ===== src/Intset/Splice.antt =====
-- One value put into a sorted array, and one taken out.
use native.Mathlib.Decide.{dec_lt, ℕ_discrete}
use commit_redis.Prelude.{ℕ, ◌+◌, ◌-◌, ◌<◌, ◌≤◌, ◌≡◌, ◌≢◌, ◌↔◌, sym, ◌∙◌, ◌⊎◌, inl, inr, arith}
use commit_redis.Prelude.Int.{ℤ, ◌<ℤ◌}
use commit_redis.Intset.Defs.{Intset, intset_get_at}
use commit_redis.Intset.Search.{IsValid}

-- `v` is an element of the set.
abbrev pub Member : Intset → ℤ → Type 0
Member is v = (j : ℕ) × (j < is.length) × (intset_get_at is j ≡ v)

-- `is'` is `is` with `v` at position `at`.
pub record Spliced (is : Intset) (v : ℤ) (at : ℕ) (is' : Intset) : Type 0 where
  pub inside : at ≤ is.length
  pub len : is'.length ≡ is.length + 1
  pub new : intset_get_at is' at ≡ v
  pub below : (j : ℕ) → j < at → intset_get_at is' j ≡ intset_get_at is j
  pub above : (j : ℕ) → at ≤ j → j < is.length → intset_get_at is' (j + 1) ≡ intset_get_at is j

-- `is'` is `is` without the element at position `at`.
pub record Cut (is : Intset) (at : ℕ) (is' : Intset) : Type 0 where
  pub len : is'.length + 1 ≡ is.length
  pub below : (j : ℕ) → j < at → intset_get_at is' j ≡ intset_get_at is j
  pub above : (j : ℕ) → at ≤ j → j < is'.length → intset_get_at is' j ≡ intset_get_at is (j + 1)

pub less_ne : (a b : ℤ) → a <ℤ b → a ≢ b
less_ne a b h e = let h' : b <ℤ b = rw e at h in omega arith

module _ (is : Intset) (v : ℤ) (at : ℕ) (is' : Intset) (s : Spliced is v at is') where
  above' : (j : ℕ) → at < j → j < is'.length → intset_get_at is' j ≡ intset_get_at is (j - 1)
  above' j gt lt =
      let e : j - 1 + 1 ≡ j = omega arith in
      rw e at (s.above (j - 1) (omega arith) (omega (arith, s.len)))

  pub Spliced-sorted :
      IsValid is
      → ((j : ℕ) → j < at → intset_get_at is j <ℤ v)
      → ((j : ℕ) → at ≤ j → j < is.length → v <ℤ intset_get_at is j)
      → (i j : ℕ) → i < j
      → j < is'.length
      → intset_get_at is' i <ℤ intset_get_at is' j
  Spliced-sorted ok before after i j lt inside = elim (dec_lt j at) [
    | yes j_below ↦
        rw (s.below i (omega arith), s.below j j_below) (ok.sorted i j lt (omega (arith, s.inside)))
    | no j_not ↦ elim (ℕ_discrete j at) [
      | yes j_at ↦
          let i_below : i < at = omega arith in
          rw (s.below i i_below, j_at, s.new) (before i i_below)
      | no j_other ↦
          let j_above : at < j = omega arith in
          rw (above' j j_above inside) (elim (dec_lt i at) [
            | yes i_below ↦
                rw (s.below i i_below) (ok.sorted i (j - 1) (omega arith) (omega (arith, s.len)))
            | no i_not ↦ elim (ℕ_discrete i at) [
              | yes i_at ↦ rw (i_at, s.new) (after (j - 1) (omega arith) (omega (arith, s.len)))
              | no i_other ↦
                  rw (above' i (omega arith) (omega arith))
                    (ok.sorted (i - 1) (j - 1) (omega arith) (omega (arith, s.len)))
            ]
          ])
    ]
  ]

  -- The elements are those that were there and the new one.
  pub Spliced-Member : (x : ℤ) → Member is' x ↔ ((x ≡ v) ⊎ Member is x)
  Spliced-Member x = (forth, back)
    where
      forth : Member is' x → (x ≡ v) ⊎ Member is x
      forth (j, lt, e) = elim (dec_lt j at) [
        | yes below ↦ inr (j, omega (arith, s.inside), sym (s.below j below) ∙ e)
        | no not_below ↦ elim (ℕ_discrete j at) [
          | yes here ↦ inl (sym (rw here at e) ∙ s.new)
          | no other ↦ inr (j - 1, omega (arith, s.len), sym (above' j (omega arith) lt) ∙ e)
        ]
      ]

      back : (x ≡ v) ⊎ Member is x → Member is' x
      back (inl e) = (at, omega (arith, s.inside, s.len), s.new ∙ sym e)
      back (inr (j, lt, e)) = elim (dec_lt j at) [
        | yes below ↦ (j, omega (arith, s.len), s.below j below ∙ e)
        | no not_below ↦ (j + 1, omega (arith, s.len), s.above j (omega arith) lt ∙ e)
      ]

module _ (is : Intset) (at : ℕ) (is' : Intset) (ok : IsValid is) (s : Cut is at is') where
  pub Cut-sorted : (i j : ℕ) → i < j → j < is'.length → intset_get_at is' i <ℤ intset_get_at is' j
  Cut-sorted i j lt inside = elim (dec_lt j at) [
    | yes j_below ↦
        rw (s.below i (omega arith), s.below j j_below) (ok.sorted i j lt (omega (arith, s.len)))
    | no j_not ↦ rw (s.above j (omega arith) inside) (elim (dec_lt i at) [
      | yes i_below ↦
          rw (s.below i i_below) (ok.sorted i (j + 1) (omega arith) (omega (arith, s.len)))
      | no i_not ↦
          rw (s.above i (omega arith) (omega arith))
            (ok.sorted (i + 1) (j + 1) (omega arith) (omega (arith, s.len)))
    ])
  ]

  -- The elements are those that were there but the one at `at`.
  pub Cut-Member :
      at < is.length → (x : ℤ) → Member is' x ↔ (Member is x × (x ≢ intset_get_at is at))
  Cut-Member in_range x = (forth, back)
    where
      forth : Member is' x → Member is x × (x ≢ intset_get_at is at)
      forth (j, lt, e) = elim (dec_lt j at) [
        | yes below ↦
            let e' = sym (s.below j below) ∙ e in
            (
              (j, omega (arith, s.len), e'),
              λ same. less_ne _ _ (ok.sorted j at below in_range) (e' ∙ same),
            )
        | no not_below ↦
            let e' = sym (s.above j (omega arith) lt) ∙ e in
            (
              (j + 1, omega (arith, s.len), e'),
              λ same.
                  less_ne _ _ (ok.sorted at (j + 1) (omega arith) (omega (arith, s.len)))
                    (sym (e' ∙ same)),
            )
      ]

      back : Member is x × (x ≢ intset_get_at is at) → Member is' x
      back ((j, lt, e), ne) = elim (dec_lt j at) [
        | yes below ↦ (j, omega (arith, s.len), s.below j below ∙ e)
        | no not_below ↦ elim (ℕ_discrete j at) [
          | yes here ↦ absurd (ne (sym (rw here at e)))
          | no other ↦
              let e' : j - 1 + 1 ≡ j = omega arith in
              (
                j - 1,
                omega (arith, s.len),
                s.above (j - 1) (omega arith) (omega (arith, s.len)) ∙ rw e' e,
              )
        ]
      ]
