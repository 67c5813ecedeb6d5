-- ===== src/Zset/Texts.antt =====
-- The tests of the searches of redis-2.6.12/src/t_zset.c by the bytes of the objects.
use commit_redis.Prelude.{
  ◌≡◌, refl, ap, Bool, true, false, ◌&&◌, ◌||◌, not, Option, none, some, List, [], ◌∷◌,
}
use commit_redis.Objects.{
  StringObject, same_text, text_below, suits, compared_lem, equal_string_objects_lem,
}
use commit_redis.Zset.Defs.{comes_before}
use commit_redis.Zset.Removal.{matches}
use commit_redis.Zset.Lookup.{reaches_object, has_object}
use commit_redis.Zset.Cells.{Cell}
use commit_redis.Zset.Valid.{All}

abbrev pub precedes :
    {S : Type 0}
    → (S → S → Bool)
    → (S → S → Bool)
    → S
    → Option StringObject
    → S
    → Option StringObject
    → Bool
precedes below same s none s' o' = false
precedes below same s (some o) s' none = false
precedes below same s (some o) s' (some o') = below s s' || (same s s' && text_below o.text o'.text)

unfoldable pub is_element :
    {S : Type 0} → (S → S → Bool) → S → StringObject → S → Option StringObject → Bool
is_element same score obj s none = false
is_element same score obj s (some o) = same score s && same_text o.text obj.text

abbrev pub reaches :
    {S : Type 0}
    → (S → S → Bool)
    → (S → S → Bool)
    → S
    → Option StringObject
    → S
    → StringObject
    → Bool
reaches below same s none s' o' = false
reaches below same s (some o) s' o' = below s s' || (same s s' && not (text_below o'.text o.text))

unfoldable pub holds : StringObject → Option StringObject → Bool
holds obj none = false
holds obj (some o) = same_text o.text obj.text

pub has_object-holds :
    (raw : Bool) (obj : StringObject) (o : Option StringObject)
    → suits raw (some obj) ≡ true
    → suits raw o ≡ true
    → has_object obj o ≡ holds obj o
unfolding has_object holds
has_object-holds raw obj none h k = refl
has_object-holds raw obj (some o) h k = equal_string_objects_lem raw o obj k h

module _ {S : Type 0} (below same : S → S → Bool) (raw : Bool) where
  pub comes_before-precedes :
      (s : S) (o : Option StringObject) (s' : S) (o' : Option StringObject)
      → suits raw o ≡ true
      → suits raw o' ≡ true
      → comes_before below same s o s' o' ≡ precedes below same s o s' o'
  comes_before-precedes s none s' o' h k = refl
  comes_before-precedes s (some o) s' none h k = refl
  comes_before-precedes s (some o) s' (some o') h k =
      ap (λ b. below s s' || (same s s' && b)) (compared_lem text_below raw o o' h k)

  pub reaches_object-reaches :
      (s : S) (o : Option StringObject) (s' : S) (o' : StringObject)
      → suits raw o ≡ true
      → suits raw (some o') ≡ true
      → reaches_object below same s o s' o' ≡ reaches below same s o s' o'
  reaches_object-reaches s none s' o' h k = refl
  reaches_object-reaches s (some o) s' o' h k =
      ap (λ b. below s s' || (same s s' && not b)) (compared_lem text_below raw o' o k h)

  pub matches-is_element :
      (score : S) (obj : StringObject) (s : S) (o : Option StringObject)
      → suits raw (some obj) ≡ true
      → suits raw o ≡ true
      → matches same score obj s o ≡ is_element same score obj s o
  unfolding matches is_element
  matches-is_element score obj s none h k = refl
  matches-is_element score obj s (some o) h k =
      ap (λ b. same score s && b) (equal_string_objects_lem raw o obj k h)

  -- Two tests that agree on the objects that suit.
  pub All-suits :
      (go go' : S → Option StringObject → Bool) (b : Bool) (xs : List (Cell S))
      → ((s : S) (o : Option StringObject) → suits raw o ≡ true → go s o ≡ go' s o)
      → All (λ s o. suits raw o) true xs
      → All go' b xs
      → All go b xs
  All-suits go go' b [] same_on ok a = tt
  All-suits go go' b (x ∷ xs) same_on (o, ok) (e, a) =
      (rw (same_on x.score x.obj o) e, All-suits go go' b xs same_on ok a)
