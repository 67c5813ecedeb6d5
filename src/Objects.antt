-- ===== src/Objects.antt =====
-- String objects, and how redis-2.6.12/src/object.c and sds.c compare them.
use commit_redis.Prelude.{
  ℕ, ◌≡◌, refl, ap, Bool, true, false, ◌&&◌, ◌||◌, not, Bool-cases, inl, inr, Option, none, some,
  List, [], ◌∷◌, ltb, ◌==◌, if◌then◌else◌, arith,
}
use commit_redis.Sides.{SameLaws}

abbrev pub Text : Type 0
Text = List ℕ

-- sdscmp of two strings is 0, by which equalStringObjects decides for two objects that are raw.
abbrev pub same_text : Text → Text → Bool
same_text [] [] = true
same_text [] (_ ∷ _) = false
same_text (_ ∷ _) [] = false
same_text (a ∷ s) (b ∷ t) = (a == b) && same_text s t

-- sdscmp of two strings is negative: memcmp of what they share, and then the lengths.
abbrev pub text_below : Text → Text → Bool
text_below [] [] = false
text_below [] (b ∷ t) = true
text_below (a ∷ s) [] = false
text_below (a ∷ s) (b ∷ t) = let rest = text_below s t in if a == b then rest else ltb a b

-- The bytes of a string, or those that ll2string prints of an integer.
pub record StringObject : Type 0 where
  pub is_int : Bool
  pub text : Text

-- What strcmp sees of a string.
abbrev pub c_string : Text → Text
c_string [] = []
c_string (a ∷ t) = let rest = c_string t in if a == 0 then [] else a ∷ rest

-- A test of the comparison of two objects: strcmp where one is an integer, sdscmp else. Two pointers to
-- one object have the same bytes.
unfoldable pub compared : (Text → Text → Bool) → StringObject → StringObject → Bool
compared test a b =
    if a.is_int || b.is_int then test (c_string a.text) (c_string b.text) else test a.text b.text

-- compareStringObjects is negative.
abbrev pub object_below : StringObject → StringObject → Bool
object_below a b = compared text_below a b

-- equalStringObjects. Two integers are the same where they print the same.
unfoldable pub equal_string_objects : StringObject → StringObject → Bool
equal_string_objects a b =
    if a.is_int && b.is_int then same_text a.text b.text else compared same_text a b

abbrev pub no_zero : Text → Bool
no_zero [] = true
no_zero (a ∷ t) = not (a == 0) && no_zero t

-- An object that is raw, where `raw` says that all are, and else one with no zero byte in it.
abbrev pub suits : Bool → Option StringObject → Bool
suits raw none = true
suits raw (some o) = if raw then not o.is_int else no_zero o.text

pub same_text_refl : (t : Text) → same_text t t ≡ true
same_text_refl [] = refl
same_text_refl (a ∷ t) = rw (same_text_refl t) ground arith

pub same_text→eq : (s t : Text) → same_text s t ≡ true → s ≡ t
same_text→eq [] [] h = refl
same_text→eq [] (b ∷ t) h = absurd (ground arith)
same_text→eq (a ∷ s) [] h = absurd (ground arith)
same_text→eq (a ∷ s) (b ∷ t) h = elim (Bool-cases (a == b)) [
  | inl e ↦ let tails = same_text→eq s t (rw e at h) in let heads : a ≡ b = ground arith in cc
  | inr e ↦ absurd (ground (arith, rw e at h))
]

pub same_text_laws : SameLaws same_text
same_text_laws = record { self = same_text_refl; eq = same_text→eq }

c_string-no_zero : (t : Text) → no_zero t ≡ true → c_string t ≡ t
c_string-no_zero [] e = refl
c_string-no_zero (a ∷ t) e = elim (Bool-cases (a == 0)) [
  | inl zero_byte ↦ absurd (ground (arith, rw zero_byte at e))
  | inr other ↦ rw other (ap (λ r. a ∷ r) (c_string-no_zero t (ground arith)))
]

pub compared_lem :
    (test : Text → Text → Bool) (raw : Bool) (a b : StringObject)
    → suits raw (some a) ≡ true
    → suits raw (some b) ≡ true
    → compared test a b ≡ test a.text b.text
unfolding compared
compared_lem test true a b h k =
    let neither : (a.is_int || b.is_int) ≡ false = ground arith in rw neither refl
compared_lem test false a b h k = elim (Bool-cases (a.is_int || b.is_int)) [
  | inr neither ↦ rw neither refl
  | inl one ↦ rw one (rw (c_string-no_zero a.text h, c_string-no_zero b.text k) refl)
]

pub equal_string_objects_lem :
    (raw : Bool) (a b : StringObject)
    → suits raw (some a) ≡ true
    → suits raw (some b) ≡ true
    → equal_string_objects a b ≡ same_text a.text b.text
unfolding equal_string_objects
equal_string_objects_lem raw a b h k = elim (Bool-cases (a.is_int && b.is_int)) [
  | inl both ↦ rw both refl
  | inr other ↦ rw other (compared_lem same_text raw a b h k)
]
