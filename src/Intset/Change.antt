-- ===== src/Intset/Change.antt =====
-- intsetAdd, intsetRemove and intsetFind on a valid set.
use commit_redis.Prelude.{
  ℕ, ◌+◌, ◌-◌, ◌*◌, ◌%◌, ◌^◌, ◌<◌, ◌≡◌, ◌≢◌, ◌↔◌, refl, ◌⊎◌, inl, inr, arith, Bool-cases,
  if◌then◌else◌, Bool, true, false, leb, ltb, some,
}
use commit_redis.Prelude.Int.{ℤ}
use commit_redis.Memory.Signed.{InWidth}
use commit_redis.Intset.Defs.{
  Intset, Found, found, missing, intset_get_at, value_encoding, width, intset_resize,
  intset_move_tail, intset_search, intset_add, intset_remove, intset_find,
}
use commit_redis.Intset.Search.{IsValid, IsAnswer, intset_search_lem}
use commit_redis.Intset.Splice.{Member, Cut, Spliced-Member, Cut-sorted, Cut-Member}
use commit_redis.Intset.Encoding.{IsInt64, value_encoding_fits}
use commit_redis.Intset.Tail.{
  room_fits, move_down, move_down_below, added, added-Spliced, added-IsValid, add_runs,
}
use commit_redis.Intset.Upgrade.{
  place, upgraded, upgrade_runs, upgraded-Spliced, upgraded-IsValid, answer-not_Member,
  wide-not_Member,
}

-- What intsetAdd of a new value leaves.
pub record IsAdd (is : Intset) (v : ℤ) (is' : Intset) : Type 0 where
  pub ok : IsValid is'
  pub len : is'.length ≡ is.length + 1
  pub members : (x : ℤ) → Member is' x ↔ ((x ≡ v) ⊎ Member is x)

-- What intsetRemove of an element leaves.
pub record IsDelete (is : Intset) (v : ℤ) (is' : Intset) : Type 0 where
  pub ok : IsValid is'
  pub len : is'.length + 1 ≡ is.length
  pub members : (x : ℤ) → Member is' x ↔ (Member is x × (x ≢ v))

module _ (is : Intset) (v : ℤ) (ok : IsValid is) (int64 : IsInt64 v) where
  -- intsetAdd on a valid set with room: either the value is an element, the answer is 0 and nothing
  -- changes; or it is none, the answer is 1, and the result is a valid set with one element more,
  -- whose elements are the value and those from before, also where they all had to be widened.
  pub intset_add_lem :
      is.length + 1 < 2 ^ 28
      → (Member is v × (intset_add is v ≡ some (is, false)))
        ⊎ ((¬ Member is v)
            × ((is' : Intset) × (intset_add is v ≡ some (is', true)) × IsAdd is v is'))
  intset_add_lem more = elim (Bool-cases (ltb is.encoding (value_encoding v))) [
    | inl wider ↦
        let lt : is.encoding < value_encoding v = ground arith in
        let s = upgraded-Spliced is ok v int64 lt in
        inr (
          wide-not_Member is ok v int64 lt,
          (
            upgraded is ok v,
            (unfold intset_add in rw wider (rw (upgrade_runs is ok v) refl)),
            record {
              ok = upgraded-IsValid is ok v int64 lt more;
              len = s.len;
              members = Spliced-Member is v (place is ok v) (upgraded is ok v) s;
            },
          ),
        )
    | inr narrow ↦
        let (r, runs, x) = intset_search_lem is v ok in
        let fits : InWidth (width is.encoding) v =
          (value_encoding_fits v is.encoding int64 ok.enc).0 (ground arith) in
        by_answer narrow fits r runs x
  ]
    where
      by_answer :
          ltb is.encoding (value_encoding v) ≡ false
          → InWidth (width is.encoding) v
          → (r : Found) → intset_search is v ≡ some r
          → IsAnswer is v r
          → (Member is v × (intset_add is v ≡ some (is, false)))
            ⊎ ((¬ Member is v)
                × ((is' : Intset) × (intset_add is v ≡ some (is', true)) × IsAdd is v is'))
      by_answer narrow fits (found at) runs (lt, e) =
          inl ((at, lt, e), unfold intset_add in rw (narrow, runs) refl)
      by_answer narrow fits (missing at) runs x =
          let s = added-Spliced is ok v at fits x.0 in
          inr (
            answer-not_Member is ok v at x,
            (
              added is ok v at,
              add_runs is ok v at narrow runs,
              record {
                ok = added-IsValid is ok v at fits more x;
                len = s.len;
                members = Spliced-Member is v at (added is ok v at) s;
              },
            ),
          )

  -- intsetFind on a valid set answers whether the value is an element.
  pub intset_find_lem : (b : Bool) × (intset_find is v ≡ some b) × ((b ≡ true) ↔ Member is v)
  unfolding intset_find
  intset_find_lem = elim (Bool-cases (leb (value_encoding v) is.encoding)) [
    | inr wide ↦ (
      false,
      rw wide refl,
      (λ h. cc, λ m. absurd (wide-not_Member is ok v int64 (ground arith) m)),
    )
    | inl narrow ↦ let (r, runs, x) = intset_search_lem is v ok in by_answer narrow r runs x
  ]
    where
      by_answer :
          leb (value_encoding v) is.encoding ≡ true
          → (r : Found) → intset_search is v ≡ some r
          → IsAnswer is v r
          → (b : Bool) × (intset_find is v ≡ some b) × ((b ≡ true) ↔ Member is v)
      by_answer narrow (found at) runs (lt, e) =
          (true, rw (narrow, runs) refl, (λ h. (at, lt, e), λ m. refl))
      by_answer narrow (missing at) runs x =
          (false, rw (narrow, runs) refl, (λ h. cc, λ m. absurd (answer-not_Member is ok v at x m)))

  abbrev remaining : ℕ → Intset
  remaining at = record is {
    contents = (if ltb at (is.length - 1) then intset_move_tail is (at + 1) at else is).contents;
    length = is.length - 1;
    alloc = (is.length - 1) * is.encoding % 2 ^ 32;
  }

  remaining-Cut : (at : ℕ) → at < is.length → Cut is at (remaining at)
  remaining-Cut at lt = elim (Bool-cases (ltb at (is.length - 1))) [
    | inl inner ↦ rw inner (record {
      len = omega arith;
      below = λ j h. unfold intset_move_tail in move_down_below is ok at j h;
      above = λ j ge h. unfold intset_move_tail in move_down is ok at j ge (omega arith);
    })
    | inr last ↦
        rw last (record {
          len = omega arith;
          below = λ j h. refl;
          above = λ j ge h. absurd (ground arith);
        })
  ]

  remaining-IsDelete :
      (at : ℕ) → at < is.length → intset_get_at is at ≡ v → IsDelete is v (remaining at)
  remaining-IsDelete at lt e =
      let c = remaining-Cut at lt in
      record {
        ok = record {
          enc = ok.enc;
          small = omega (arith, ok.small);
          room = rw (room_fits is ok (is.length - 1) (omega (arith, ok.small))) (omega arith);
          sorted = Cut-sorted is at (remaining at) ok c;
        };
        len = c.len;
        members = λ x. rw e at (Cut-Member is at (remaining at) ok c lt x);
      }

  remove_runs :
      leb (value_encoding v) is.encoding ≡ true
      → (at : ℕ) → intset_search is v ≡ some (found at)
      → intset_remove is v ≡ some (remaining at, true)
  unfolding intset_remove intset_resize intset_move_tail
  remove_runs narrow at e = elim (Bool-cases (ltb at (is.length - 1))) [
    | inl lt ↦ rw (narrow, e) (rw lt refl)
    | inr ge ↦ rw (narrow, e) (rw ge refl)
  ]

  -- intsetRemove on a valid set: an element is taken out and the answer is 1, the result is a valid
  -- set of the other elements; any other value changes nothing, and the answer is 0.
  pub intset_remove_lem :
      ((¬ Member is v) × (intset_remove is v ≡ some (is, false)))
      ⊎ (Member is v
          × ((is' : Intset) × (intset_remove is v ≡ some (is', true)) × IsDelete is v is'))
  unfolding intset_remove
  intset_remove_lem = elim (Bool-cases (leb (value_encoding v) is.encoding)) [
    | inr wide ↦ inl (wide-not_Member is ok v int64 (ground arith), rw wide refl)
    | inl narrow ↦ let (r, runs, x) = intset_search_lem is v ok in by_answer narrow r runs x
  ]
    where
      by_answer :
          leb (value_encoding v) is.encoding ≡ true
          → (r : Found) → intset_search is v ≡ some r
          → IsAnswer is v r
          → ((¬ Member is v) × (intset_remove is v ≡ some (is, false)))
            ⊎ (Member is v
                × ((is' : Intset) × (intset_remove is v ≡ some (is', true)) × IsDelete is v is'))
      by_answer narrow (missing at) runs x =
          inl (answer-not_Member is ok v at x, rw (narrow, runs) refl)
      by_answer narrow (found at) runs (lt, e) =
          inr ((at, lt, e), (remaining at, remove_runs narrow at runs, remaining-IsDelete at lt e))
