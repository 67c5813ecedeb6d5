-- ===== src/Sides/Defs.antt =====
-- Lists and dictionaries of the two sides, with the functions of adlist.c and dict.c that change them.
use commit_redis.Prelude.{
  ℕ, Bool, true, false, Option, none, some, List, [], ◌∷◌, ◌==◌, ◌≡◌, sym, ap, ◌∙◌, ◌&&◌,
  Bool-cases, inl, inr, arith, if◌then◌else◌, is_nil,
}

-- An equality of keys, as a test.
pub record SameLaws {K : Type 0} (same : K → K → Bool) : Type 0 where
  pub self : (k : K) → same k k ≡ true
  pub eq : (a b : K) → same a b ≡ true → a ≡ b

-- listSearchKey by a test on the value, and listDelNode on the node that it finds.
abbrev pub has {ℓ} : {A : Type ℓ} → (A → Bool) → List A → Bool
has p [] = false
has p (x ∷ xs) = if p x then true else has p xs

abbrev pub remove_first {ℓ} : {A : Type ℓ} → (A → Bool) → List A → List A
remove_first p [] = []
remove_first p (x ∷ xs) = if p x then xs else x ∷ remove_first p xs

-- A write to one client's field, and to one key of a dictionary.
abbrev pub at_client {ℓ} : {A : Type ℓ} → (ℕ → A) → ℕ → A → ℕ → A
at_client f c v c' = if c == c' then v else f c'

abbrev pub at_key {ℓ} : {K : Type 0} {A : Type ℓ} → (K → K → Bool) → (K → A) → K → A → K → A
at_key same f k v k' = if same k k' then v else f k'

-- The list of clients of a key, empty where the dictionary has no entry.
abbrev pub clients_of : Option (List ℕ) → List ℕ
clients_of none = []
clients_of (some cs) = cs

-- An empty list is taken out of the dictionary.
abbrev pub entry_of_clients : List ℕ → Option (List ℕ)
entry_of_clients cs = if is_nil cs then none else some cs

-- Equality of pairs of a number and a key.
abbrev pub same_pair : {K : Type 0} → (K → K → Bool) → ℕ × K → ℕ × K → Bool
same_pair same (c, k) (c', k') = (c == c') && same k k'

pub same_pair_laws : {K : Type 0} {same : K → K → Bool} → SameLaws same → SameLaws (same_pair same)
same_pair_laws {K} {same} laws = record {
  self = λ (c, k). rw (laws.self k) ground arith;
  eq = λ (a, k) (b, j) h. elim (Bool-cases (a == b)) [
    | inl e ↦
        let keys = laws.eq k j (rw e at h) in
        let numbers : a ≡ b = ground arith in cc (keys, numbers)
    | inr e ↦ absurd (ground (arith, rw e at h))
  ];
}

-- What differs from one key is not what equals it.
pub same_apart :
    {K : Type 0} {same : K → K → Bool}
    → SameLaws same
    → (a b : K) → same a b ≡ false
    → (x : K) → same a x ≡ true
    → same b x ≡ false
same_apart {same} laws a b differ x e = elim (Bool-cases (same b x)) [
  | inl f ↦
      let eq : b ≡ a = laws.eq b x f ∙ sym (laws.eq a x e) in
      absurd (ground (arith, sym differ ∙ ap (same a) eq ∙ laws.self a))
  | inr f ↦ f
]
