-- ===== src/Adlist/Linked.antt =====
-- When the nodes of a heap are linked as a list of addresses and values says, and what a write to
-- one node does to that.
use commit_redis.Prelude.{
  ℕ, ◌≡◌, refl, ◌∙◌, ap, Bool, true, false, Option, none, some, List, [], ◌∷◌, ◌++◌, ◌==◌,
  if◌then◌else◌, length, arith,
}
use commit_redis.Adlist.Defs.{Ptr, Node, node, Heap, DList, write}

abbrev pub Cells : Type 0 → Type 0
Cells V = List (ℕ × V)

module _ {V : Type 0} where
  abbrev pub has : ℕ → Cells V → Bool
  has p [] = false
  has p ((a, v) ∷ xs) = if a == p then true else has p xs

  -- The address of the first cell, or what stands behind the cells; the last, or what is before.
  abbrev pub first : Cells V → Ptr → Ptr
  first [] q = q
  first ((a, v) ∷ xs) q = some a

  abbrev pub last_of : ℕ → Cells V → ℕ
  last_of a [] = a
  last_of a ((b, v) ∷ xs) = last_of b xs

  abbrev pub final : Cells V → Ptr → Ptr
  final [] q = q
  final ((a, v) ∷ xs) q = some (last_of a xs)

  -- Each cell is a node, whose pointers are to its neighbours.
  abbrev pub Linked : Heap V → Ptr → Cells V → Ptr → Type 0
  Linked h before [] behind = Unit {0}
  Linked h before ((a, v) ∷ xs) behind =
      (h a ≡ some (node before v (first xs behind))) × Linked h (some a) xs behind

  abbrev pub NoDup : Cells V → Type 0
  NoDup [] = Unit {0}
  NoDup ((a, v) ∷ xs) = (has a xs ≡ false) × NoDup xs

  -- The whole list that a header stands for.
  pub record IsList (h : Heap V) (l : DList) (xs : Cells V) : Type 0 where
    pub head : l.head ≡ first xs none
    pub tail : l.tail ≡ final xs none
    pub len : l.len ≡ length xs
    pub links : Linked h none xs none
    pub apart : NoDup xs

  -- Two heaps agree on the addresses that are not in the cells.
  abbrev pub SameOutside : Cells V → Heap V → Heap V → Type 0
  SameOutside xs h g = (a : ℕ) → has a xs ≡ false → g a ≡ h a

  pub first-append : (xs ys : Cells V) (q : Ptr) → first (xs ++ ys) q ≡ first xs (first ys q)
  first-append [] ys q = refl
  first-append ((a, v) ∷ xs) ys q = refl

  pub last_of-append :
      (a : ℕ) (xs : Cells V) (b : ℕ) (v : V) (ys : Cells V)
      → last_of a (xs ++ ((b, v) ∷ ys)) ≡ last_of b ys
  last_of-append a [] b v ys = refl
  last_of-append a ((c, w) ∷ xs) b v ys = last_of-append c xs b v ys

  pub final-append : (xs ys : Cells V) (q : Ptr) → final (xs ++ ys) q ≡ final ys (final xs q)
  final-append [] ys q = refl
  final-append ((a, v) ∷ xs) ((b, w) ∷ ys) q = ap some (last_of-append a xs b w ys)
  final-append ((a, v) ∷ []) [] q = refl
  final-append ((a, v) ∷ (b, w) ∷ xs) [] q = final-append ((b, w) ∷ xs) [] q

  pub has-append :
      (p : ℕ) (xs ys : Cells V) → has p (xs ++ ys) ≡ (if has p xs then true else has p ys)
  has-append p [] ys = refl
  has-append p ((a, v) ∷ xs) ys = ground (arith, has-append p xs ys)

  -- Nodes that are not written stay linked.
  pub Linked-same :
      (h g : Heap V) (before : Ptr) (xs : Cells V) (behind : Ptr)
      → Linked h before xs behind
      → ((a : ℕ) → has a xs ≡ true → g a ≡ h a)
      → Linked g before xs behind
  Linked-same h g before [] behind l same = tt
  Linked-same h g before ((a, v) ∷ xs) behind l same = (
    same a (ground arith) ∙ l.0,
    Linked-same h g (some a) xs behind l.1 (λ b there. same b (ground arith)),
  )

  pub Linked-write :
      (h : Heap V) (p : ℕ) (c : Option (Node V)) (before : Ptr) (xs : Cells V) (behind : Ptr)
      → has p xs ≡ false
      → Linked h before xs behind
      → Linked (write h p c) before xs behind
  Linked-write h p c before xs behind out l =
      Linked-same h (write h p c) before xs behind l (λ a there. ground arith)

  pub Linked-append :
      (h : Heap V) (before : Ptr) (xs ys : Cells V) (behind : Ptr)
      → Linked h before xs (first ys behind)
      → Linked h (final xs before) ys behind
      → Linked h before (xs ++ ys) behind
  Linked-append h before [] ys behind l k = k
  Linked-append h before ((a, v) ∷ []) ys behind l k = (l.0, k)
  Linked-append h before ((a, v) ∷ (b, w) ∷ xs) ys behind l k =
      (l.0, Linked-append h (some a) ((b, w) ∷ xs) ys behind l.1 k)

  pub Linked-front :
      (h : Heap V) (before : Ptr) (xs ys : Cells V) (behind : Ptr)
      → Linked h before (xs ++ ys) behind
      → Linked h before xs (first ys behind)
  Linked-front h before [] ys behind l = tt
  Linked-front h before ((a, v) ∷ xs) ys behind l =
      (rw (← first-append xs ys behind) l.0, Linked-front h (some a) xs ys behind l.1)

  pub Linked-back :
      (h : Heap V) (before : Ptr) (xs ys : Cells V) (behind : Ptr)
      → Linked h before (xs ++ ys) behind
      → Linked h (final xs before) ys behind
  Linked-back h before [] ys behind l = l
  Linked-back h before ((a, v) ∷ []) ys behind l = l.1
  Linked-back h before ((a, v) ∷ (b, w) ∷ xs) ys behind l =
      Linked-back h (some a) ((b, w) ∷ xs) ys behind l.1
