-- ===== src/Zset/Cells.antt =====
-- The levels of a skip list as they follow from its nodes in order. The header stands as a first cell.
use commit_redis.Prelude.{
  ℕ, suc, ◌+◌, ◌≡◌, refl, ap, ◌∙◌, Bool, true, false, Bool-cases, ◌⊎◌, inl, inr, Option, none, some,
  List, [], ◌∷◌, ◌++◌, ltb, ◌==◌, if◌then◌else◌, length, arith,
}
use commit_redis.Objects.{StringObject}
use commit_redis.Zset.Defs.{ZLevel, ZHeap, entry}

-- A node: its address, what it holds and how many levels it has.
pub record Cell (S : Type 0) : Type 0 where
  pub addr : ℕ
  pub score : S
  pub obj : Option StringObject
  pub height : ℕ

module _ {S : Type 0} where
  -- What level `i` of a node holds, by the cells behind it. The span to NULL counts the cells left.
  abbrev pub next_at : ℕ → List (Cell S) → ZLevel
  next_at i [] = record { forward = none; span = 0 }
  next_at i (c ∷ r) =
      let rest = next_at i r in
      if ltb i c.height
      then record { forward = some c.addr; span = 1 }
      else record { forward = rest.forward; span = suc rest.span }

  -- Each cell with a level `i` points on as the cells behind it say.
  abbrev pub Row : ZHeap S → ℕ → List (Cell S) → Type 0
  Row h i [] = Unit {0}
  Row h i (c ∷ r) = ((ltb i c.height ≡ true) → entry h c.addr i ≡ some (next_at i r)) × Row h i r

  -- No cell has a level `i`.
  abbrev pub Low : ℕ → List (Cell S) → Type 0
  Low i [] = Unit {0}
  Low i (c ∷ r) = (ltb i c.height ≡ false) × Low i r

  abbrev pub has : ℕ → List (Cell S) → Bool
  has p [] = false
  has p (c ∷ r) = if c.addr == p then true else has p r

  abbrev pub NoDup : List (Cell S) → Type 0
  NoDup [] = Unit {0}
  NoDup (c ∷ r) = (has c.addr r ≡ false) × NoDup r

  pub next_at-Low :
      (i : ℕ) (mid r : List (Cell S))
      → Low i mid
      → next_at i (mid ++ r)
        ≡ record { forward = (next_at i r).forward; span = length mid + (next_at i r).span }
  next_at-Low i [] r low =
      ap (λ n. record { forward = (next_at i r).forward; span = n }) (omega arith)
  next_at-Low i (c ∷ mid) r (short, low) =
      rw (short, next_at-Low i mid r low)
        (ap (λ n. record { forward = (next_at i r).forward; span = n }) (omega arith))

  -- The first cell with a level `i` ends the search for one.
  pub next_at-high :
      (i : ℕ) (mid : List (Cell S)) (d : Cell S) (r : List (Cell S))
      → Low i mid
      → ltb i d.height ≡ true
      → next_at i (mid ++ (d ∷ r)) ≡ record { forward = some d.addr; span = suc (length mid) }
  next_at-high i mid d r low high =
      next_at-Low i mid (d ∷ r) low
      ∙ rw high (ap (λ n. record { forward = some d.addr; span = n }) (omega arith))

  -- What stands behind a cell with a level `i` does not matter before it.
  pub next_at-cut :
      (i : ℕ) (xs : List (Cell S)) (c : Cell S) (r r' : List (Cell S))
      → ltb i c.height ≡ true
      → next_at i (xs ++ (c ∷ r)) ≡ next_at i (xs ++ (c ∷ r'))
  next_at-cut i [] c r r' high = rw high refl
  next_at-cut i (x ∷ xs) c r r' high = rw (next_at-cut i xs c r r' high) refl

  -- Either no cell has a level `i`, or there is a first that has.
  abbrev pub FirstHigh : ℕ → List (Cell S) → Type 0
  FirstHigh i xs =
      Low i xs
      ⊎ ((mid : List (Cell S)) × (d : Cell S) × (r : List (Cell S)) × (xs ≡ mid ++ (d ∷ r))
          × Low i mid
          × (ltb i d.height ≡ true))

  pub first_high : (i : ℕ) (xs : List (Cell S)) → FirstHigh i xs
  first_high i [] = inl tt
  first_high i (c ∷ xs) = elim (Bool-cases (ltb i c.height)) [
    | inl high ↦ inr ([], c, xs, refl, tt, high)
    | inr short ↦ elim (first_high i xs) [
      | inl low ↦ inl (short, low)
      | inr (mid, d, r, e, low, high) ↦ inr (c ∷ mid, d, r, ap (λ l. c ∷ l) e, (short, low), high)
    ]
  ]

  pub Row-at :
      (h : ZHeap S) (i : ℕ) (xs : List (Cell S)) (c : Cell S) (r : List (Cell S))
      → Row h i (xs ++ (c ∷ r))
      → ltb i c.height ≡ true
      → entry h c.addr i ≡ some (next_at i r)
  Row-at h i [] c r row high = row.0 high
  Row-at h i (x ∷ xs) c r row high = Row-at h i xs c r row.1 high

  pub Row-behind : (h : ZHeap S) (i : ℕ) (xs r : List (Cell S)) → Row h i (xs ++ r) → Row h i r
  Row-behind h i [] r row = row
  Row-behind h i (x ∷ xs) r row = Row-behind h i xs r row.1

  pub Low-Row :
      (h : ZHeap S) (i : ℕ) (mid r : List (Cell S)) → Low i mid → Row h i r → Row h i (mid ++ r)
  Low-Row h i [] r low row = row
  Low-Row h i (c ∷ mid) r (short, low) row = ((λ high. cc), Low-Row h i mid r low row)

  -- The same cells in front of a cell with a level `i`, with other cells behind it.
  pub Row-cut :
      (h g : ZHeap S) (i : ℕ) (xs : List (Cell S)) (c : Cell S) (r r' : List (Cell S))
      → ltb i c.height ≡ true
      → Row h i (xs ++ (c ∷ r))
      → ((p : ℕ) → has p xs ≡ true → entry g p i ≡ entry h p i)
      → Row g i (c ∷ r')
      → Row g i (xs ++ (c ∷ r'))
  Row-cut h g i [] c r r' high row same row' = row'
  Row-cut h g i (x ∷ xs) c r r' high row same row' = (
    (λ high'. same x.addr (ground arith) ∙ row.0 high' ∙ ap some (next_at-cut i xs c r r' high)),
    Row-cut h g i xs c r r' high row.1 (λ p there. same p (ground arith)) row',
  )

  pub Row-same :
      (h g : ZHeap S) (i : ℕ) (xs : List (Cell S))
      → Row h i xs
      → ((p : ℕ) → has p xs ≡ true → entry g p i ≡ entry h p i)
      → Row g i xs
  Row-same h g i [] row same = tt
  Row-same h g i (x ∷ xs) row same = (
    (λ high. same x.addr (ground arith) ∙ row.0 high),
    Row-same h g i xs row.1 (λ p there. same p (ground arith)),
  )

  pub has-append :
      (p : ℕ) (xs ys : List (Cell S)) → has p (xs ++ ys) ≡ (if has p xs then true else has p ys)
  has-append p [] ys = refl
  has-append p (x ∷ xs) ys = ground (arith, has-append p xs ys)

  -- The address of a cell is nowhere else.
  pub NoDup-apart :
      (xs : List (Cell S)) (c : Cell S) (r : List (Cell S))
      → NoDup (xs ++ (c ∷ r))
      → (has c.addr xs ≡ false) × (has c.addr r ≡ false)
  NoDup-apart [] c r apart = (refl, apart.0)
  NoDup-apart (x ∷ xs) c r apart =
      let (before, behind) = NoDup-apart xs c r apart.1 in
      let other : has x.addr (xs ++ (c ∷ r)) ≡ false = apart.0 in
      (ground (arith, has-append x.addr xs (c ∷ r)), behind)
