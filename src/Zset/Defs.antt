-- ===== src/Zset/Defs.antt =====
-- The skip list of redis-2.6.12/src/t_zset.c over a heap of nodes. `none` is a fault, such as a read
-- through NULL or of a level that a node has not, a failed assertion or a loop that goes on; NULL is
-- `none` in a pointer.
use commit_redis.Prelude.{
  ℕ, zero, suc, ◌+◌, ◌-◌, ◌%◌, ◌^◌, Bool, true, false, ◌&&◌, ◌||◌, Option, none, some, List, [],
  ◌∷◌, ◌++◌, ltb, ◌==◌, if◌then◌else◌, ◌>>=◌, get_elem?, set, replicate, min,
}
use commit_redis.Objects.{StringObject, object_below}

abbrev pub Ptr : Type 0
Ptr = Option ℕ

abbrev pub zskiplist_maxlevel : ℕ
zskiplist_maxlevel = 32

pub record ZLevel : Type 0 where
  pub forward : Ptr
  pub span : ℕ

-- A double is a value of `S`. The object of the header is NULL.
pub record ZNode (S : Type 0) : Type 0 where
  pub obj : Option StringObject
  pub score : S
  pub backward : Ptr
  pub level : List ZLevel

pub record ZSkipList : Type 0 where
  pub header : ℕ
  pub tail : Ptr
  pub length : ℕ
  pub level : ℕ

abbrev pub ZHeap : Type 0 → Type 0
ZHeap S = ℕ → Option (ZNode S)

-- The test of a search: the score is less, or the same with an object that comes before. The objects
-- are not NULL there.
abbrev pub comes_before :
    {S : Type 0}
    → (S → S → Bool)
    → (S → S → Bool)
    → S
    → Option StringObject
    → S
    → Option StringObject
    → Bool
comes_before below same s none s' o' = false
comes_before below same s (some o) s' none = false
comes_before below same s (some o) s' (some o') = below s s' || (same s s' && object_below o o')

-- zslRandomLevel, over the answers of random(). ZSKIPLIST_P * 0xFFFF is 16383.75.
unfoldable pub random_level : List ℕ → Option ℕ
random_level [] = none
random_level (d ∷ ds) = elim (ltb (d % 2 ^ 16) 16384) [
  | false ↦ some 1
  | true ↦ do level ← random_level ds; some (min (level + 1) zskiplist_maxlevel)
]

abbrev pub is_node : Ptr → ℕ → Bool
is_node none x = false
is_node (some y) x = y == x

abbrev pub first_of : List (ℕ × ℕ) → ℕ × ℕ
first_of [] = (0, 0)
first_of (u ∷ us) = u

module _ {S : Type 0} where
  -- `p->level[i]`
  unfoldable pub entry : ZHeap S → ℕ → ℕ → Option ZLevel
  entry h p i = do n ← h p; get_elem? n.level i

  abbrev pub write : ZHeap S → ℕ → ZNode S → ZHeap S
  write h p n a = if a == p then some n else h a

  unfoldable pub set_entry : ZHeap S → ℕ → ℕ → ZLevel → Option (ZHeap S)
  set_entry h p i l = do
    n ← h p
    old ← get_elem? n.level i
    some (write h p (record n { level = set n.level i l }))

  unfoldable pub set_backward : ZHeap S → ℕ → Ptr → Option (ZHeap S)
  set_backward h p q = do n ← h p; some (write h p (record n { backward = q }))

  -- zslCreateNode; `junk` is what zmalloc leaves in a level. The callers write the pointer back before
  -- it is read.
  abbrev pub zsl_create_node : ZLevel → ℕ → S → Option StringObject → ZNode S
  zsl_create_node junk level score obj = record {
    obj = obj;
    score = score;
    backward = none;
    level = replicate level junk;
  }

  -- The loop of zslCreate over `n` levels of the header from `i` on.
  unfoldable pub clear_levels : ZHeap S → ℕ → ℕ → ℕ → Option (ZHeap S)
  clear_levels h x i zero = some h
  clear_levels h x i (suc n) = do
    h₁ ← set_entry h x i (record { forward = none; span = 0 })
    clear_levels h₁ x (suc i) n

  -- zslCreate, with the address `x` and the memory `junk` that zmalloc answers for the header.
  unfoldable pub zsl_create : S → ℕ → ZLevel → ZHeap S → Option (ZSkipList × ZHeap S)
  zsl_create zero_score x junk h = do
    h₁ ←
        clear_levels (write h x (zsl_create_node junk zskiplist_maxlevel zero_score none)) x 0
          zskiplist_maxlevel
    h₂ ← set_backward h₁ x none
    some (record { header = x; tail = none; length = 0; level = 1 }, h₂)

  -- One `while` of a search: forward on level `i` while `go` holds of the next node, with the sum of the
  -- spans that are crossed.
  unfoldable pub walk : (S → Option StringObject → Bool) → ℕ → ZHeap S → ℕ → ℕ → ℕ → Option (ℕ × ℕ)
  walk go zero h i x rank = none
  walk go (suc fuel) h i x rank = do
    l ← entry h x i
    elim l.forward [
      | none ↦ some (x, rank)
      | some y ↦ do
        n ← h y
        let rest = walk go fuel h i y (rank + l.span)
        if go n.score n.obj then rest else some (x, rank)
    ]

  -- The `for` of a search from level `n - 1` down: `update` and `rank`, from level 0 up.
  -- zslDelete and the ranges of scores search without the ranks.
  unfoldable pub search :
      (S → Option StringObject → Bool)
      → ℕ
      → ZHeap S
      → ℕ
      → ℕ
      → ℕ
      → List (ℕ × ℕ)
      → Option (List (ℕ × ℕ))
  search go fuel h zero x rank found = some found
  search go fuel h (suc i) x rank found = do
    u ← walk go fuel h i x rank
    search go fuel h i u.0 u.1 (u ∷ found)

  -- The loop for the levels that the new node has not, from `i` on.
  unfoldable pub span_up : ZHeap S → ℕ → List (ℕ × ℕ) → Option (ZHeap S)
  span_up h i [] = some h
  span_up h i (u ∷ us) = do
    l ← entry h u.0 i
    h₁ ← set_entry h u.0 i (record { forward = l.forward; span = l.span + 1 })
    span_up h₁ (suc i) us

  -- The loop that links the new node `x` on `n` levels from `i` on, and then the loop for the others.
  unfoldable pub link : ZHeap S → ℕ → ℕ → ℕ → ℕ → List (ℕ × ℕ) → Option (ZHeap S)
  link h x rank0 i zero us = span_up h i us
  link h x rank0 i (suc n) [] = none
  link h x rank0 i (suc n) (u ∷ us) = do
    l ← entry h u.0 i
    h₁ ← set_entry h x i (record { forward = l.forward; span = l.span - (rank0 - u.1) })
    h₂ ← set_entry h₁ u.0 i (record { forward = some x; span = (rank0 - u.1) + 1 })
    link h₂ x rank0 (suc i) n us

  -- The loop for the `n` levels from `i` on that the list has not yet.
  unfoldable pub add_levels : ZHeap S → ZSkipList → ℕ → ℕ → Option (ZHeap S)
  add_levels h zl i zero = some h
  add_levels h zl i (suc n) = do
    l ← entry h zl.header i
    h₁ ← set_entry h zl.header i (record { forward = l.forward; span = zl.length })
    add_levels h₁ zl (suc i) n

  -- The pointers back, the tail and the length after a node was linked behind `u0`.
  unfoldable pub attach : ZHeap S → ZSkipList → ℕ → ℕ → ℕ → Option (ZSkipList × ZHeap S)
  attach h zl x u0 level = do
    l ← entry h x 0
    h₁ ← set_backward h x (if u0 == zl.header then none else some u0)
    elim l.forward [
      | none ↦
          some (
            record { header = zl.header; tail = some x; length = zl.length + 1; level = level },
            h₁,
          )
      | some y ↦ do
        h₂ ← set_backward h₁ y (some x)
        some (
          record { header = zl.header; tail = zl.tail; length = zl.length + 1; level = level },
          h₂,
        )
    ]

  -- zslInsert: `level` is what zslRandomLevel answers, `x` the address that zmalloc answers, and
  -- `junk` what its memory holds.
  unfoldable pub zsl_insert :
      (S → Bool)
      → (S → Option StringObject → S → Option StringObject → Bool)
      → ℕ
      → ZLevel
      → ℕ
      → ZHeap S
      → ZSkipList
      → S
      → StringObject
      → Option (ℕ × ZSkipList × ZHeap S)
  zsl_insert is_nan precedes x junk level h zl score obj = if is_nan score then none else do
    us ← search (λ s o. precedes s o score (some obj)) (suc zl.length) h zl.level zl.header 0 []
    h₁ ← add_levels h zl zl.level (level - zl.level)
    let us₁ = us ++ replicate (level - zl.level) (zl.header, 0)
    h₂ ←
        link (write h₁ x (zsl_create_node junk level score (some obj))) x (first_of us₁).1 0 level
          us₁
    zl_h ← attach h₂ zl x (first_of us₁).0 (if ltb zl.level level then level else zl.level)
    some (x, zl_h.0, zl_h.1)
