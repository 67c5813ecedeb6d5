-- ===== src/Dict/Expand.antt =====
-- dictExpand and _dictExpandIfNeeded: a table for new entries is made, and no entry is touched.
use commit_redis.Prelude.{
  ℕ, ◌*◌, ◌/◌, ◌%◌, ◌^◌, ◌<◌, ◌≤◌, ◌≡◌, refl, ◌∙◌, ap, inl, inr, Bool, true, false, none, some, [],
  ◌∷◌, arith, leb, ltb, Bool-cases, Option-cases, if◌then◌else◌, ◌==◌, ◌&&◌, ◌||◌, length, List,
  is_nil,
}
use commit_redis.Dict.Defs.{
  DictType, Dict, Dictht, Chain, dict_ok, fresh_table, dict_is_rehashing, dict_size, dict_expand,
  long_max,
}
use commit_redis.Dict.Ops.{expand_if_needed, dict_force_resize_ratio}
use commit_redis.Dict.Table.{total, fresh_table-TableOk, find_ht-fresh_table}
use commit_redis.Dict.Power.{IsNextPower, dict_next_power_lem}
use commit_redis.Dict.Valid.{IsSame-refl, IsValid, IsSame, idle, busy, find_ht-eq-none, SizesBelow}
use commit_redis.Dict.Rehash.{find_ht_empty}

-- The table that takes new entries.
abbrev pub target : {K V : Type 0} → Dict K V → Dictht K V
target d = if dict_is_rehashing d then d.ht1 else d.ht0

-- Memory holds fewer than 2 ^ 61 buckets and entries.
abbrev pub Fits : {K V : Type 0} → Dict K V → Type 0
Fits d = SizesBelow (2 ^ 61) d × (dict_size d < 2 ^ 61)

-- Fewer buckets and entries than make an index of the table for new entries negative as an int.
abbrev pub FitsInt : {K V : Type 0} → Dict K V → Type 0
FitsInt d = SizesBelow (2 ^ 29) d × (dict_size d < 2 ^ 29)

-- An expansion that succeeds.
pub record Expanded {K V : Type 0} (T : DictType K V) (d : Dict K V) (d' : Dict K V) : Type 0 where
  pub ok : IsValid T d'
  pub same : IsSame T d d'
  pub room : 0 < (target d').size
  pub small : FitsInt d → (target d').size < 2 ^ 31

pub total_nil : {E : Type 0} (t : List (List E)) → length t ≡ 0 → total t ≡ 0
total_nil [] h = refl
total_nil (c ∷ t) h = absurd (omega arith)

next_small : (p size : ℕ) → IsNextPower size p → size ≤ 2 ^ 30 → p < 2 ^ 31
next_small p size pow le = elim pow.tight [ inl four ↦ omega arith | inr less ↦ omega arith ]

target_small : {K V : Type 0} → (d : Dict K V) → FitsInt d → (target d).size < 2 ^ 31
target_small d ((lo, hi), few) = ground arith

module _ {K V : Type 0} {T : DictType K V} where
  first_table :
      (d : Dict K V) (p size : ℕ)
      → IsValid T d
      → d.rehashidx ≡ none
      → IsNextPower size p
      → is_nil d.ht0.table ≡ true
      → (FitsInt d → size ≤ 2 ^ 30)
      → Expanded T d (record d { ht0 = fresh_table p })
  first_table d p size v e pow nil bound =
      let z : d.ht0.used ≡ 0 = v.ok0.count ∙ no_entries d.ht0.table nil in
      record {
        ok = record {
          ok0 = fresh_table-TableOk T p;
          ok1 = v.ok1;
          apart = λ k there. find_ht-eq-none T d.ht1 k (idle d v e);
          phase = rw e (idle d v e);
        };
        same = record {
          entries = λ k. rw (find_ht-fresh_table T p k, find_ht_empty d.ht0 k v.ok0 z) refl;
          count = omega arith;
          iterators = refl;
        };
        room = rw e (omega (arith, pow.least));
        small = λ fits. rw e (next_small p size pow (bound fits));
      }
    where
      no_entries : (t : List (Chain K V)) → is_nil t ≡ true → total t ≡ 0
      no_entries [] h = refl
      no_entries (c ∷ t) h = cc

  second_table :
      (d : Dict K V) (p size : ℕ)
      → IsValid T d
      → d.rehashidx ≡ none
      → IsNextPower size p
      → is_nil d.ht0.table ≡ false
      → (FitsInt d → size ≤ 2 ^ 30)
      → Expanded T d (record d { ht1 = fresh_table p; rehashidx = some 0 })
  second_table d p size v e pow there bound =
      let z : 0 < length d.ht0.table = some_bucket d.ht0.table there in
      record {
        ok = record {
          ok0 = v.ok0;
          ok1 = fresh_table-TableOk T p;
          apart = λ k here. find_ht-fresh_table T p k;
          phase =
              (omega (arith, v.ok0.len), omega (arith, pow.least), λ j lt. absurd (omega arith));
        };
        same = record {
          entries =
              λ k. rw (find_ht-fresh_table T p k, find_ht-eq-none T d.ht1 k (idle d v e)) refl;
          count =
              let f : d.ht1.used ≡ 0 = ap (λ (h : Dictht K V). h.used) (idle d v e) in omega arith;
          iterators = refl;
        };
        room = omega (arith, pow.least);
        small = λ fits. next_small p size pow (bound fits);
      }
    where
      some_bucket : (t : List (Chain K V)) → is_nil t ≡ false → 0 < length t
      some_bucket [] h = cc
      some_bucket (c ∷ t) h = omega arith

  -- dictExpand from a valid state that is not rehashing: it succeeds when `size` holds the entries.
  pub dict_expand_ok :
      (d : Dict K V) (size : ℕ)
      → IsValid T d
      → d.rehashidx ≡ none
      → size < long_max
      → d.ht0.used ≤ size
      → (FitsInt d → size ≤ 2 ^ 30)
      → (d' : Dict K V) × (dict_expand size d ≡ some (dict_ok, d')) × Expanded T d d'
  unfolding dict_expand
  dict_expand_ok d size v e small fits bound =
      let (p, runs, pow) = dict_next_power_lem size small in
      let no_less : ltb size d.ht0.used ≡ false = ground arith in
      elim (Bool-cases (is_nil d.ht0.table)) [
        | inl nil ↦ (
          record d { ht0 = fresh_table p },
          rw runs (rw (e, no_less, nil) refl),
          first_table d p size v e pow nil bound,
        )
        | inr there ↦ (
          record d { ht1 = fresh_table p; rehashidx = some 0 },
          rw runs (rw (e, no_less, there) refl),
          second_table d p size v e pow there bound,
        )
      ]

  no_expansion : (d : Dict K V) → IsValid T d → 0 < (target d).size → Expanded T d d
  no_expansion d v room = record {
    ok = v;
    same = IsSame-refl d;
    room = room;
    small = λ fits. target_small d fits;
  }

  -- _dictExpandIfNeeded always succeeds, and there is a bucket for the new entry afterwards.
  pub expand_if_needed_lem :
      (can_resize : Bool) (d : Dict K V)
      → IsValid T d
      → Fits d
      → (d' : Dict K V) × (expand_if_needed can_resize d ≡ some (dict_ok, d')) × Expanded T d d'
  unfolding expand_if_needed
  expand_if_needed_lem can_resize d v fits = elim (Option-cases d.rehashidx) [
    | inr (i, e) ↦ (d, rw e refl, no_expansion d v (rw e ((busy d v i e).1)))
    | inl e ↦
        let calm : dict_is_rehashing d ≡ false = rw e refl in
        elim (Bool-cases (d.ht0.size == 0)) [
          | inl zero_size ↦
              let (d', runs, ok) =
                dict_expand_ok d 4 v e (omega arith)
                  (let z : d.ht0.size ≡ 0 = ground arith in
                    omega (arith, v.ok0.len, v.ok0.count, total_nil d.ht0.table))
                  (λ fits. omega arith) in
              (d', rw (calm, zero_size) runs, ok)
          | inr sized ↦
              elim (Bool-cases (
                leb d.ht0.size d.ht0.used
                && (can_resize || ltb dict_force_resize_ratio (d.ht0.used / d.ht0.size)))) [
                  | inl grow ↦
                      let most : ℕ = if ltb d.ht0.used d.ht0.size then d.ht0.size else d.ht0.used in
                      let (d', runs, ok) =
                        dict_expand_ok d (most * 2 % 2 ^ 64) v e (ground arith) (ground arith)
                          (λ small. ground arith) in
                      (d', rw (calm, sized, grow) runs, ok)
                  | inr stay ↦
                      (d, rw (calm, sized, stay) refl, no_expansion d v (rw calm (ground arith)))
                ]
        ]
  ]
