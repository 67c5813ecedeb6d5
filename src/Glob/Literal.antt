-- ===== src/Glob/Literal.antt =====
-- A glob pattern with no special byte matches the text that it spells, and no other.
use commit_redis.Prelude.{
  ℕ, zero, suc, ◌<◌, ◌≡◌, refl, ◌∙◌, Bool, true, false, ◌||◌, Bool-cases, inl, inr, Option, some,
  List, [], ◌∷◌, ◌++◌, ◌==◌, if◌then◌else◌, length, length-append, arith,
}
use commit_redis.Glob.Defs.{match_char, only_stars, match_loop, stringmatchlen}
use commit_redis.Objects.{same_text}

abbrev pub is_special : ℕ → Bool
is_special c = (c == 0) || ((c == b'*') || ((c == b'?') || ((c == b'[') || (c == b'\\'))))

abbrev pub all_plain : List ℕ → Bool
all_plain [] = true
all_plain (c ∷ p) = if is_special c then false else all_plain p

module _ (tolower : ℕ → ℕ) where
  plain_round :
      (nocase : Bool) (n c d : ℕ) (r s : List ℕ)
      → is_special c ≡ false
      → match_loop tolower nocase (suc n) (c ∷ d ∷ r) s
        ≡ match_char tolower nocase (match_loop tolower nocase n) (c ∷ d ∷ r) s
  unfolding match_loop
  plain_round nocase n c d r s plain =
      let star : (c == b'*') ≡ false = ground arith in
      let any : (c == b'?') ≡ false = ground arith in
      let class : (c == b'[') ≡ false = ground arith in
      let escape : (c == b'\\') ≡ false = ground arith in rw (star, any, class, escape) refl

-- The zero that ends a string stands behind its bytes.
abbrev pub ended : List ℕ → List ℕ
ended s = s ++ (0 ∷ [])

ended_cons : (s : List ℕ) → (d : ℕ) × (r : List ℕ) × (ended s ≡ d ∷ r)
ended_cons [] = (0, [], refl)
ended_cons (d ∷ s) = (d, ended s, refl)

head_plain : (c : ℕ) (p : List ℕ) → all_plain (c ∷ p) ≡ true → is_special c ≡ false
head_plain c p h = elim (Bool-cases (is_special c)) [
  | inl e ↦ absurd (ground (arith, rw e at h))
  | inr e ↦ e
]

tail_plain : (c : ℕ) (p : List ℕ) → all_plain (c ∷ p) ≡ true → all_plain p ≡ true
tail_plain c p h = rw (head_plain c p h) at h

only_stars-plain : (p : List ℕ) → all_plain p ≡ true → only_stars (ended p) ≡ some (same_text p [])
only_stars-plain [] h = refl
only_stars-plain (c ∷ p) h =
    let plain = head_plain c p h in
    let star : (c == b'*') ≡ false = ground arith in
    let (d, r, e) = ended_cons p in rw (star, e) refl

length-ended : (x : ℕ) (s : List ℕ) → (length (ended (x ∷ s)) == 1) ≡ false
length-ended x s = ground (arith, length-append s (0 ∷ []))

-- One byte of the pattern, where the rest of the loop is right for the rest of the pattern.
char_step :
    (tolower : ℕ → ℕ) (rest : List ℕ → List ℕ → Option Bool) (c : ℕ) (p s : List ℕ)
    → all_plain (c ∷ p) ≡ true
    → (ih : (s' : List ℕ) → rest (ended p) (ended s') ≡ some (same_text p s'))
    → match_char tolower false rest (c ∷ ended p) (ended s) ≡ some (same_text (c ∷ p) s)
char_step tolower rest c p [] h ih =
    let plain = head_plain c p h in let differ : (c == 0) ≡ false = ground arith in rw differ refl
char_step tolower rest c p (x ∷ []) h ih = elim (Bool-cases (c == x)) [
  | inl e ↦ rw e (only_stars-plain p (tail_plain c p h))
  | inr e ↦ rw e refl
]
char_step tolower rest c p (x ∷ y ∷ s) h ih = elim (Bool-cases (c == x)) [
  | inl e ↦ rw (e, length-ended y s) (ih (y ∷ s))
  | inr e ↦ rw e refl
]

match_literal :
    (tolower : ℕ → ℕ) (n : ℕ) (p s : List ℕ)
    → all_plain p ≡ true
    → length p < n
    → match_loop tolower false n (ended p) (ended s) ≡ some (same_text p s)
unfolding match_loop
match_literal tolower zero p s h lt = absurd (omega arith)
match_literal tolower (suc n) [] [] h lt = refl
match_literal tolower (suc n) [] (x ∷ s) h lt = rw (length-ended x s) refl
match_literal tolower (suc n) (c ∷ p) s h lt =
    let (d, r, e) = ended_cons p in
    let step =
      char_step tolower (match_loop tolower false n) c p s h
        (λ s'. match_literal tolower n p s' (tail_plain c p h) (omega arith)) in
    rw e (plain_round tolower false n c d r (ended s) (head_plain c p h) ∙ (rw e at step))

-- A pattern with none of the bytes zero, star, question mark, bracket and backslash is matched,
-- case and all, against the whole string: the answer is whether both are the same bytes.
pub stringmatchlen_literal :
    (tolower : ℕ → ℕ) (p s : List ℕ)
    → all_plain p ≡ true
    → stringmatchlen tolower (ended p) (ended s) false ≡ some (same_text p s)
unfolding stringmatchlen
stringmatchlen_literal tolower p s h =
    match_literal tolower (length (ended p)) p s h (omega (arith, length-append p (0 ∷ [])))
