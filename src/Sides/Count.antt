-- ===== src/Sides/Count.antt =====
-- How often a value occurs in a list, under listSearchKey and listDelNode.
use commit_redis.Prelude.{
  ℕ, suc, ◌+◌, ◌≤◌, ◌≡◌, refl, sym, ◌∙◌, ap, Bool, true, false, Bool-cases, inl, inr, List, [], ◌∷◌,
  ◌++◌, if◌then◌else◌, arith,
}
use commit_redis.Sides.Defs.{has, remove_first}

abbrev pub count {ℓ} : {A : Type ℓ} → (A → Bool) → List A → ℕ
count p [] = 0
count p (x ∷ xs) = if p x then suc (count p xs) else count p xs

module _ {ℓ} {A : Type ℓ} (p : A → Bool) where
  pub count-append_one :
      (xs : List A) (x : A) → count p (xs ++ (x ∷ [])) ≡ count p xs + (if p x then 1 else 0)
  count-append_one [] x = elim (Bool-cases (p x)) [ inl e ↦ rw e refl | inr e ↦ rw e refl ]
  count-append_one (y ∷ ys) x = elim (Bool-cases (p y)) [
    | inl e ↦ rw (e, count-append_one ys x) omega arith
    | inr e ↦ rw (e, count-append_one ys x) refl
  ]

  pub count_absent : (xs : List A) → has p xs ≡ false → count p xs ≡ 0
  count_absent [] h = refl
  count_absent (x ∷ xs) h = elim (Bool-cases (p x)) [
    | inl e ↦ absurd (ground (arith, rw e at h))
    | inr e ↦ rw e (count_absent xs (rw e at h))
  ]

  pub count_there : (xs : List A) → 1 ≤ count p xs → has p xs ≡ true
  count_there [] h = absurd (omega arith)
  count_there (x ∷ xs) h = elim (Bool-cases (p x)) [
    | inl e ↦ rw e refl
    | inr e ↦ rw e (count_there xs (rw e at h))
  ]

  pub count-remove_first_self :
      (xs : List A) → has p xs ≡ true → suc (count p (remove_first p xs)) ≡ count p xs
  count-remove_first_self [] h = absurd (ground arith)
  count-remove_first_self (x ∷ xs) h = elim (Bool-cases (p x)) [
    | inl e ↦ rw e refl
    | inr e ↦ rw (e, e) (count-remove_first_self xs (rw e at h))
  ]

  pub count-remove_first_other :
      (q : A → Bool) (xs : List A) (apart : (x : A) → p x ≡ true → q x ≡ false)
      → count q (remove_first p xs) ≡ count q xs
  count-remove_first_other q [] apart = refl
  count-remove_first_other q (x ∷ xs) apart = elim (Bool-cases (p x)) [
    | inl e ↦ rw (e, apart x e) refl
    | inr e ↦ rw e (elim (Bool-cases (q x)) [
      | inl f ↦ rw f (ap suc (count-remove_first_other q xs apart))
      | inr f ↦ rw f (count-remove_first_other q xs apart)
    ])
  ]

pub remove_first-absent {ℓ} :
    {A : Type ℓ} (p : A → Bool) (xs : List A) → has p xs ≡ false → remove_first p xs ≡ xs
remove_first-absent p [] h = refl
remove_first-absent p (x ∷ xs) h = elim (Bool-cases (p x)) [
  | inl e ↦ absurd (ground (arith, rw e at h))
  | inr e ↦ rw e (ap (λ t. x ∷ t) (remove_first-absent p xs (rw e at h)))
]

has_more :
    {A B : Type 0} (p : A → Bool) (q : B → Bool) (xs : List A) (ys : List B)
    → count p xs ≡ count q ys
    → has p xs ≡ true
    → has q ys ≡ true
has_more p q xs ys e there = count_there q ys (omega (arith, count-remove_first_self p xs there, e))

-- As often in both is as much as in both.
pub has_of_count :
    {A B : Type 0} (p : A → Bool) (q : B → Bool) (xs : List A) (ys : List B)
    → count p xs ≡ count q ys
    → has p xs ≡ has q ys
has_of_count p q xs ys e = elim (Bool-cases (has p xs)) [
  | inl there ↦ there ∙ sym (has_more p q xs ys e there)
  | inr gone ↦ elim (Bool-cases (has q ys)) [
    | inl there ↦ has_more q p ys xs (sym e) there ∙ sym there
    | inr none_there ↦ gone ∙ sym none_there
  ]
]
