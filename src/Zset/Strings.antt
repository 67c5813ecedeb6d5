-- ===== src/Zset/Strings.antt =====
-- compareStringObjects of redis-2.6.12/src/object.c as an order.
use commit_redis.Prelude.{
  ℕ, ◌≡◌, refl, Bool, true, false, ◌||◌, Bool-cases, ◌⊎◌, inl, inr, [], ◌∷◌, ltb, ◌==◌, arith,
}
use commit_redis.Objects.{Text, text_below}

pub text_below_trans :
    (s t u : Text) → text_below s t ≡ true → text_below t u ≡ true → text_below s u ≡ true
text_below_trans [] [] u h k = cc
text_below_trans [] (b ∷ t) [] h k = cc
text_below_trans [] (b ∷ t) (c ∷ u) h k = refl
text_below_trans (a ∷ s) [] u h k = cc
text_below_trans (a ∷ s) (b ∷ t) [] h k = cc
text_below_trans (a ∷ s) (b ∷ t) (c ∷ u) h k = ground (arith, text_below_trans s t u)

turned : (a b : ℕ) → (a == b) ≡ false → (b == a) ≡ false
turned a b e = ground arith

more : (a b : ℕ) → (a == b) ≡ false → ltb a b ≡ false → ltb b a ≡ true
more a b e h = ground arith

is_same : (a b : ℕ) → (a == b) ≡ true → a ≡ b
is_same a b e = ground arith

is_refl : (a : ℕ) → (a == a) ≡ true
is_refl a = ground arith

pub or_true : (b : Bool) → (b || true) ≡ true
or_true true = refl
or_true false = refl

pub text_below_total : (s t : Text) → (text_below s t ≡ true) ⊎ ((s ≡ t) ⊎ (text_below t s ≡ true))
text_below_total [] [] = inr (inl refl)
text_below_total [] (b ∷ t) = inl refl
text_below_total (a ∷ s) [] = inr (inr refl)
text_below_total (a ∷ s) (b ∷ t) = elim (Bool-cases (a == b)) [
  | inr other ↦ elim (Bool-cases (ltb a b)) [
    | inl less ↦ inl (rw (other, less) refl)
    | inr not_less ↦ inr (inr (rw (turned a b other, more a b other not_less) refl))
  ]
  | inl same ↦
      let e : a ≡ b = is_same a b same in
      let back : (b == a) ≡ true = rw e (is_refl b) in
      elim (text_below_total s t) [
        | inl h ↦ inl (rw same h)
        | inr (inl h) ↦ inr (inl (cc))
        | inr (inr h) ↦ inr (inr (rw back h))
      ]
]
