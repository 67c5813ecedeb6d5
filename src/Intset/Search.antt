-- ===== src/Intset/Search.antt =====
-- The invariant of an intset, and the binary search.
use native.Mathlib.Decide.{dec_lt}
use commit_redis.Prelude.{
  ℕ, zero, suc, ◌+◌, ◌-◌, ◌*◌, ◌/◌, ◌^◌, ◌<◌, ◌≤◌, ◌≡◌, refl, ◌⊎◌, inl, inr, arith, Bool-cases,
  ◌==◌, some, ltb,
}
use commit_redis.Prelude.Int.{ℤ, ◌<ℤ◌, ltb_ℤ, eq_of_parts}
use commit_redis.Intset.Defs.{
  Intset, Found, found, missing, intset_get_at, search_loop, intset_search,
}

-- The elements go up strictly, the memory holds them, and there are fewer than 2 ^ 28 of them, so
-- that the sizes in bytes fit a `uint32_t` and the positions an `int`.
pub record IsValid (is : Intset) : Type 0 where
  pub enc : (is.encoding ≡ 2) ⊎ (is.encoding ≡ 4) ⊎ (is.encoding ≡ 8)
  pub small : is.length < 2 ^ 28
  pub room : is.length * is.encoding ≤ is.alloc
  pub sorted : (i j : ℕ) → i < j → j < is.length → intset_get_at is i <ℤ intset_get_at is j

-- A position of the value, or the place where it would go.
abbrev pub IsAnswer : Intset → ℤ → Found → Type 0
IsAnswer is v (found at) = (at < is.length) × (intset_get_at is at ≡ v)
IsAnswer is v (missing at) =
    (at ≤ is.length)
    × ((j : ℕ) → j < at → intset_get_at is j <ℤ v)
    × ((j : ℕ) → at ≤ j → j < is.length → v <ℤ intset_get_at is j)

module _ (is : Intset) (v : ℤ) (ok : IsValid is) where
  abbrev at : ℕ → ℤ
  at j = intset_get_at is j

  below_smaller : (i j : ℕ) → i ≤ j → j < is.length → at j <ℤ v → at i <ℤ v
  below_smaller i j le lt h = elim (dec_lt i j) [
    | yes less ↦ omega (arith, ok.sorted i j less lt)
    | no ge ↦ let e : i ≡ j = omega arith in rw e h
  ]

  above_larger : (i j : ℕ) → i ≤ j → j < is.length → v <ℤ at i → v <ℤ at j
  above_larger i j le lt h = elim (dec_lt i j) [
    | yes less ↦ omega (arith, ok.sorted i j less lt)
    | no ge ↦ let e : j ≡ i = omega arith in rw e h
  ]

  search_loop_lem :
      (fuel lo hi : ℕ)
      → lo ≤ hi
      → hi ≤ is.length
      → hi < lo + fuel
      → ((j : ℕ) → j < lo → at j <ℤ v)
      → ((j : ℕ) → hi ≤ j → j < is.length → v <ℤ at j)
      → (r : Found) × (search_loop fuel is v lo hi ≡ some r) × IsAnswer is v r
  unfolding search_loop
  search_loop_lem zero lo hi le inside few before after = absurd (omega arith)
  search_loop_lem (suc fuel) lo hi le inside few before after = elim (Bool-cases (ltb lo hi)) [
    | inr stop ↦
        let e : lo ≡ hi = ground arith in
        (missing lo, rw stop refl, (omega arith, before, λ j ge lt. after j (omega arith) lt))
    | inl go ↦
        let mid = (lo + (hi - 1)) / 2 in
        let lt : lo < hi = ground arith in
        let in_mid : mid < hi = omega arith in
        elim (Bool-cases (ltb_ℤ (at mid) v)) [
          | inl right ↦
              let up : at mid <ℤ v = ground arith in
              let (r, runs, x) =
                search_loop_lem fuel (mid + 1) hi (omega arith) inside (omega arith)
                  (λ j h. below_smaller j mid (omega arith) (omega arith) up) after in
              (r, rw go (rw right runs), x)
          | inr not_right ↦ elim (Bool-cases (ltb_ℤ v (at mid))) [
            | inl left ↦
                let down : v <ℤ at mid = ground arith in
                let (r, runs, x) =
                  search_loop_lem fuel lo mid (omega arith) (omega arith) (omega arith) before
                    (λ j h lt'. above_larger mid j h lt' down) in
                (r, rw go (rw (not_right, left) runs), x)
            | inr here ↦ (
              found mid,
              rw go (rw (not_right, here) refl),
              (omega arith, eq_of_parts (at mid) v (ground arith)),
            )
          ]
        ]
  ]

-- intsetSearch on a valid set ends, and answers a position of the value or the one place where it
-- keeps the order.
pub intset_search_lem :
    (is : Intset) (v : ℤ)
    → IsValid is
    → (r : Found) × (intset_search is v ≡ some r) × IsAnswer is v r
unfolding intset_search
intset_search_lem is v ok = elim (Bool-cases (is.length == 0)) [
  | inl z ↦
      let z' : is.length ≡ 0 = ground arith in
      (
        missing 0,
        rw z refl,
        (omega arith, λ j h. absurd (omega arith), λ j h lt. absurd (omega arith)),
      )
  | inr nz ↦
      let some_there : 0 < is.length = ground arith in
      elim (Bool-cases (ltb_ℤ (intset_get_at is (is.length - 1)) v)) [
        | inl right ↦
            let up : intset_get_at is (is.length - 1) <ℤ v = ground arith in
            (
              missing is.length,
              rw nz (rw right refl),
              (
                omega arith,
                λ j h. below_smaller is v ok j (is.length - 1) (omega arith) (omega arith) up,
                λ j h lt. absurd (omega arith),
              ),
            )
        | inr not_right ↦ elim (Bool-cases (ltb_ℤ v (intset_get_at is 0))) [
          | inl left ↦
              let down : v <ℤ intset_get_at is 0 = ground arith in
              (
                missing 0,
                rw nz (rw (not_right, left) refl),
                (
                  omega arith,
                  λ j h. absurd (omega arith),
                  λ j h lt. above_larger is v ok 0 j (omega arith) lt down,
                ),
              )
          | inr inner ↦
              let (r, runs, x) =
                search_loop_lem is v ok (suc is.length) 0 is.length (omega arith) (omega arith)
                  (omega arith) (λ j h. absurd (omega arith)) (λ j h lt. absurd (omega arith)) in
              (r, rw nz (rw (not_right, inner) runs), x)
        ]
      ]
]
