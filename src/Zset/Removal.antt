-- ===== src/Zset/Removal.antt =====
-- zslDeleteNode, zslFreeNode and zslDelete of redis-2.6.12/src/t_zset.c.
use commit_redis.Prelude.{
  ℕ, zero, suc, ◌+◌, ◌-◌, Bool, true, false, ◌&&◌, Option, none, some, List, [], ◌∷◌, ltb, ◌==◌,
  if◌then◌else◌, ◌>>=◌,
}
use commit_redis.Objects.{StringObject, equal_string_objects}
use commit_redis.Zset.Defs.{
  ZSkipList, ZHeap, entry, set_entry, set_backward, first_of, is_node, comes_before, search,
}

-- `score == x->score && equalStringObjects(x->obj,obj)`
unfoldable pub matches :
    {S : Type 0} → (S → S → Bool) → S → StringObject → S → Option StringObject → Bool
matches same score obj s none = false
matches same score obj s (some o) = same score s && equal_string_objects o obj

module _ {S : Type 0} where
  -- The loop of zslDeleteNode over the levels of the list.
  unfoldable pub unlink : ZHeap S → ℕ → ℕ → List (ℕ × ℕ) → Option (ZHeap S)
  unlink h x i [] = some h
  unlink h x i (u ∷ us) = do
    l ← entry h u.0 i
    h₁ ← elim (is_node l.forward x) [
      | true ↦ do
        m ← entry h x i
        set_entry h u.0 i (record { forward = m.forward; span = l.span + m.span - 1 })
      | false ↦ set_entry h u.0 i (record { forward = l.forward; span = l.span - 1 })
    ]
    unlink h₁ x (suc i) us

  -- The loop that lowers `zsl->level` while the header has nothing on the highest level.
  unfoldable pub lower_level : ZHeap S → ℕ → ℕ → Option ℕ
  lower_level h header zero = some zero
  lower_level h header (suc n) = elim (ltb 0 n) [
    | false ↦ some (suc n)
    | true ↦ do
      l ← entry h header n
      elim l.forward [ none ↦ lower_level h header n | some y ↦ some (suc n) ]
  ]

  -- zslDeleteNode
  unfoldable pub zsl_delete_node :
      ZHeap S → ZSkipList → ℕ → List (ℕ × ℕ) → Option (ZSkipList × ZHeap S)
  zsl_delete_node h zl x us = do
    h₁ ← unlink h x 0 us
    l ← entry h₁ x 0
    n ← h₁ x
    h₂ ← elim l.forward [ none ↦ some h₁ | some y ↦ set_backward h₁ y n.backward ]
    level ← lower_level h₂ zl.header zl.level
    some (
      record {
        header = zl.header;
        tail = elim l.forward [ none ↦ n.backward | some y ↦ zl.tail ];
        length = zl.length - 1;
        level = level;
      },
      h₂,
    )

  -- zslFreeNode, but for the reference to the object.
  abbrev pub zsl_free_node : ZHeap S → ℕ → ZHeap S
  zsl_free_node h x a = if a == x then none else h a

  -- zslDelete: whether the element was there.
  unfoldable pub zsl_delete :
      (S → S → Bool)
      → (S → S → Bool)
      → ZHeap S
      → ZSkipList
      → S
      → StringObject
      → Option (Bool × ZSkipList × ZHeap S)
  zsl_delete below same h zl score obj = do
    us ←
        search (λ s o. comes_before below same s o score (some obj)) (suc zl.length) h zl.level
          zl.header 0 []
    l ← entry h (first_of us).0 0
    elim l.forward [
      | none ↦ some (false, zl, h)
      | some x ↦ do
        n ← h x
        let removed =
            zsl_delete_node h zl x us >>= (λ zl_h. some (true, zl_h.0, zsl_free_node zl_h.1 x))
        if matches same score obj n.score n.obj then removed else some (false, zl, h)
    ]
