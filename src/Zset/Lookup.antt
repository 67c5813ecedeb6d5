-- ===== src/Zset/Lookup.antt =====
-- zslGetElementByRank and zslGetRank of redis-2.6.12/src/t_zset.c.
use commit_redis.Prelude.{
  ℕ, zero, suc, ◌+◌, Bool, false, ◌&&◌, ◌||◌, not, Option, none, some, leb, ◌==◌, if◌then◌else◌,
  ◌>>=◌,
}
use commit_redis.Objects.{StringObject, object_below, equal_string_objects}
use commit_redis.Zset.Defs.{Ptr, ZSkipList, ZHeap, entry, walk}

-- The test of zslGetRank, with the comparison of objects at most 0.
abbrev pub reaches_object :
    {S : Type 0}
    → (S → S → Bool)
    → (S → S → Bool)
    → S
    → Option StringObject
    → S
    → StringObject
    → Bool
reaches_object below same s none s' o' = false
reaches_object below same s (some o) s' o' = below s s' || (same s s' && not (object_below o' o))

-- `x->obj && equalStringObjects(x->obj,o)`
unfoldable pub has_object : StringObject → Option StringObject → Bool
has_object obj none = false
has_object obj (some o) = equal_string_objects o obj

module _ {S : Type 0} where
  -- The `while` of zslGetElementByRank on level `i`.
  unfoldable pub walk_rank : ℕ → ℕ → ZHeap S → ℕ → ℕ → ℕ → Option (ℕ × ℕ)
  walk_rank rank zero h i x traversed = none
  walk_rank rank (suc fuel) h i x traversed = do
    l ← entry h x i
    elim l.forward [
      | none ↦ some (x, traversed)
      | some y ↦
          let rest = walk_rank rank fuel h i y (traversed + l.span) in
          if leb (traversed + l.span) rank then rest else some (x, traversed)
    ]

  -- The `for` of zslGetElementByRank from level `n - 1` down.
  unfoldable pub find_rank : ℕ → ℕ → ZHeap S → ℕ → ℕ → ℕ → Option Ptr
  find_rank rank fuel h zero x traversed = some none
  find_rank rank fuel h (suc i) x traversed = do
    u ← walk_rank rank fuel h i x traversed
    let rest = find_rank rank fuel h i u.0 u.1
    if u.1 == rank then some (some u.0) else rest

  unfoldable pub zsl_get_element_by_rank : ZHeap S → ZSkipList → ℕ → Option Ptr
  zsl_get_element_by_rank h zl rank = find_rank rank (suc zl.length) h zl.level zl.header 0

  -- The `for` of zslGetRank from level `n - 1` down.
  unfoldable pub find_element :
      (S → Option StringObject → Bool) → StringObject → ℕ → ZHeap S → ℕ → ℕ → ℕ → Option ℕ
  find_element go obj fuel h zero x rank = some 0
  find_element go obj fuel h (suc i) x rank = do
    u ← walk go fuel h i x rank
    n ← h u.0
    let rest = find_element go obj fuel h i u.0 u.1
    if has_object obj n.obj then some u.1 else rest

  unfoldable pub zsl_get_rank :
      (S → S → Bool) → (S → S → Bool) → ZHeap S → ZSkipList → S → StringObject → Option ℕ
  zsl_get_rank below same h zl score obj =
      find_element (λ s o. reaches_object below same s o score obj) obj (suc zl.length) h zl.level
        zl.header 0
