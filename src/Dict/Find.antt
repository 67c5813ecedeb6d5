-- ===== src/Dict/Find.antt =====
-- dictFind and dictFetchValue on a valid dictionary.
use commit_redis.Prelude.{
  ◌≡◌, refl, ◌∙◌, inl, inr, true, none, some, arith, Bool-cases, Option-cases, ◌==◌,
}
use commit_redis.Dict.Defs.{DictType, Dict, Dictht, compare_keys}
use commit_redis.Dict.Ops.{dict_find}
use commit_redis.Dict.Chain.{KeyLaws, search_eq}
use commit_redis.Dict.Table.{find_ht}
use commit_redis.Dict.Valid.{
  IsValid, IsSame, IsSame-refl, entry_of, idle, busy, find_ht-eq-none, find_entry-eq-entry_of,
}
use commit_redis.Dict.Expand.{total_nil}
use commit_redis.Dict.Rehash.{find_ht_empty, step_if_rehashing_lem}

module _ {K V : Type 0} {T : DictType K V} (L : KeyLaws T) where
  -- Equal keys have the same entry.
  pub find_ht_eq :
      (ht : Dictht K V) (a b : K) → compare_keys T a b ≡ true → find_ht T ht a ≡ find_ht T ht b
  find_ht_eq ht a b e = rw (L.hash a b e, search_eq L a b _ e) refl

  pub entry_of_eq :
      (d : Dict K V) (a b : K) → compare_keys T a b ≡ true → entry_of T d a ≡ entry_of T d b
  entry_of_eq d a b e = rw (find_ht_eq d.ht0 a b e, find_ht_eq d.ht1 a b e) refl

  -- Before the first table is made the dictionary is empty.
  pub no_table : (d : Dict K V) (k : K) → IsValid T d → d.ht0.size ≡ 0 → entry_of T d k ≡ none
  no_table d k v z = elim (Option-cases d.rehashidx) [
    | inl e ↦
        rw
          (
            find_ht_empty d.ht0 k v.ok0 (v.ok0.count ∙ total_nil d.ht0.table (v.ok0.len ∙ z)),
            find_ht-eq-none T d.ht1 k (idle d v e),
          )
          refl
    | inr (i, e) ↦ absurd (omega (arith, (busy d v i e).0))
  ]

  -- dictFind on a valid dictionary: it ends with no fault, answers the entry of the key, if there is
  -- one, and the step of rehashing that it makes leaves every entry where it can be found.
  pub dict_find_lem :
      (d : Dict K V) (key : K)
      → IsValid T d
      → (d' : Dict K V) × (dict_find T d key ≡ some (d', entry_of T d key))
        × IsValid T d'
        × IsSame T d d'
  unfolding dict_find
  dict_find_lem d key v = elim (Bool-cases (d.ht0.size == 0)) [
    | inl z ↦ (d, rw (z, no_table d key v (ground arith)) refl, v, IsSame-refl d)
    | inr nz ↦
        let (d', s) = step_if_rehashing_lem L d v in
        (
          d',
          rw (nz, s.runs, find_entry-eq-entry_of d' key s.ok, s.same.entries key) refl,
          s.ok,
          s.same,
        )
  ]
