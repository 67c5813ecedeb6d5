-- ===== src/Intset/Tests.antt =====
-- Runs of intset.c at concrete sets, and the theorems at them.
use commit_redis.Prelude.{
  ℕ, zero, suc, ◌<◌, ◌≡◌, ◌⊎◌, inl, refl, Bool, true, false, Option, none, some, List, [], ◌∷◌,
  arith, get_or,
}
use commit_redis.Prelude.Int.{ℤ, pos, negsuc, ◌<ℤ◌}
use commit_redis.Memory.{load, store}
use commit_redis.Memory.Signed.{of_bits, to_bits}
use commit_redis.Intset.Defs.{
  Intset, Found, intset_get_at, get_encoded, set_encoded, intset_search, intset_add, intset_remove,
  value_encoding, upgrade_loop, intset_upgrade_and_add, intset_resize,
}
use commit_redis.Intset.Search.{IsValid, IsAnswer, intset_search_lem}
use commit_redis.Intset.Splice.{Member}
use commit_redis.Intset.Slots.{Upgraded, upgrade_loop_lem}
use commit_redis.Intset.Change.{IsAdd, IsDelete, intset_add_lem, intset_remove_lem}

-- The set of -3 and 5, two bytes each.
abbrev small_set : Intset
small_set = record {
  encoding = 2;
  length = 2;
  contents = λ x. get_or (0xfd ∷ 0xff ∷ 5 ∷ 0 ∷ []) x 0;
  alloc = 4;
}

small_set-sorted :
    (i j : ℕ) → i < j → j < 2 → intset_get_at small_set i <ℤ intset_get_at small_set j
unfolding get_encoded load of_bits
small_set-sorted zero zero h lt = absurd (omega arith)
small_set-sorted zero (suc zero) h lt = omega arith
small_set-sorted zero (suc (suc j)) h lt = absurd (omega arith)
small_set-sorted (suc i) zero h lt = absurd (omega arith)
small_set-sorted (suc i) (suc zero) h lt = absurd (omega arith)
small_set-sorted (suc i) (suc (suc j)) h lt = absurd (omega arith)

small_set-IsValid : IsValid small_set
small_set-IsValid = record {
  enc = inl refl;
  small = omega arith;
  room = omega arith;
  sorted = small_set-sorted;
}

intset_search_example :
    (r : Found) × (intset_search small_set (pos 4) ≡ some r) × IsAnswer small_set (pos 4) r
intset_search_example = intset_search_lem small_set (pos 4) small_set-IsValid

-- The value does not fit two bytes.
intset_add_example :
    (Member small_set (negsuc 99999)
      × (intset_add small_set (negsuc 99999) ≡ some (small_set, false)))
    ⊎ ((¬ Member small_set (negsuc 99999))
        × ((is' : Intset) × (intset_add small_set (negsuc 99999) ≡ some (is', true))
            × IsAdd small_set (negsuc 99999) is'))
intset_add_example =
    intset_add_lem small_set (negsuc 99999) small_set-IsValid (omega arith) (omega arith)

intset_remove_example :
    ((¬ Member small_set (pos 5)) × (intset_remove small_set (pos 5) ≡ some (small_set, false)))
    ⊎ (Member small_set (pos 5)
        × ((is' : Intset) × (intset_remove small_set (pos 5) ≡ some (is', true))
            × IsDelete small_set (pos 5) is'))
intset_remove_example = intset_remove_lem small_set (pos 5) small_set-IsValid (omega arith)

upgrade_loop_example : Upgraded 2 1 2 4 small_set.contents (upgrade_loop 2 1 2 4 small_set.contents)
upgrade_loop_example = upgrade_loop_lem 2 1 2 4 small_set.contents (omega arith)

-- The elements after a value of four bytes has been added in front.
abbrev elements : Option (Intset × Bool) → List ℤ
elements none = []
elements (some (is, _)) = intset_get_at is 0 ∷ intset_get_at is 1 ∷ intset_get_at is 2 ∷ []

add_in_front : elements (intset_add small_set (negsuc 99999)) ≡ negsuc 99999 ∷ negsuc 2 ∷ pos 5 ∷ []
unfolding intset_add value_encoding intset_upgrade_and_add intset_resize upgrade_loop get_encoded
    set_encoded load store of_bits to_bits
add_in_front = refl
