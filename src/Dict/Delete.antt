-- ===== src/Dict/Delete.antt =====
-- dictGenericDelete (dictDelete and dictDeleteNoFree) on a valid dictionary.
use Prim.Native.Nat.{bit_and}
use native.Mathlib.Decide.{dec_lt}
use commit_redis.Prelude.{
  ℕ, suc, ◌+◌, ◌<◌, ◌≤◌, ◌≡◌, refl, sym, ◌∙◌, ap, ◌⊎◌, inl, inr, true, false, Option, none, some,
  [], arith, Bool-cases, Option-cases, if◌then◌else◌, ◌==◌, length, get_or-ge, get_or-set_ne,
}
use commit_redis.Dict.Defs.{
  DictType, Dict, Dictht, Chain, dict_ok, dict_err, is_some, slot, bucket, dict_size, search,
  unlink, compare_keys, pred64, dict_is_rehashing,
}
use commit_redis.Dict.Ops.{delete_from, delete_entry, dict_generic_delete}
use commit_redis.Dict.Chain.{KeyLaws, ChainOk, search-unlink, unlink-ChainOk, unlink-none}
use commit_redis.Dict.Table.{
  find_ht, TableOk, total-set, with_bucket, find_ht-with_bucket, with_bucket-TableOk,
}
use commit_redis.Dict.Valid.{
  IsValid, IsSame, IsSame-refl, Phase, entry_of, idle, busy, find_ht-eq-none,
}
use commit_redis.Dict.Rehash.{step_if_rehashing_lem}
use commit_redis.Dict.Find.{find_ht_eq, no_table}

-- `d'` is `d` without the entry of `key`.
pub record IsRemove {K V : Type 0} (T : DictType K V) (d : Dict K V) (key : K) (d' : Dict K V)
    : Type 0 where
  pub ok : IsValid T d'
  pub entries : (k : K) → entry_of T d' k ≡ (if compare_keys T key k then none else entry_of T d k)
  pub count : dict_size d ≡ dict_size d' + 1
  pub iterators : d'.iterators ≡ d.iterators

module _ {K V : Type 0} {T : DictType K V} (L : KeyLaws T) where
  -- One table without the entry of a key that it has.
  record Deleted (ht : Dictht K V) (key : K) (ht' : Dictht K V) : Type 0 where
    there : is_some (find_ht T ht key) ≡ true
    ok : TableOk T ht'
    size : ht'.size ≡ ht.size
    count : ht.used ≡ ht'.used + 1
    finds : (k : K) → find_ht T ht' k ≡ (if compare_keys T key k then none else find_ht T ht k)
    empty : (j : ℕ) → bucket ht j ≡ [] → bucket ht' j ≡ []

  module _ (ht : Dictht K V) (key : K) (rest : Chain K V) (ok : TableOk T ht)
      (out : unlink T key (bucket ht (slot T ht key)) ≡ some rest) where
    abbrev i : ℕ
    i = slot T ht key

    shorter :
        ChainOk T ht.sizemask i rest
        × (length (bucket ht i) ≡ suc (length rest))
        × (is_some (search T key (bucket ht i)) ≡ true)
    shorter = unlink-ChainOk L ht.sizemask i key (bucket ht i) rest (ok.chains i) out

    inside : i < length ht.table
    inside = elim (dec_lt i (length ht.table)) [
      | yes lt ↦ lt
      | no ge ↦ absurd (omega (arith, shorter.1, ap length (get_or-ge ht.table i [] (omega arith))))
    ]

    some_used : suc (length rest) ≤ ht.used
    some_used = omega (arith, total-set ht.table i [] inside, ok.count, shorter.1)

    abbrev ht' : Dictht K V
    ht' = with_bucket ht i rest (pred64 ht.used)

    used' : pred64 ht.used + 1 ≡ ht.used
    used' = ground (arith, some_used)

    found : (k : K) → find_ht T ht' k ≡ (if compare_keys T key k then none else find_ht T ht k)
    found k =
        find_ht-with_bucket T ht i rest (pred64 ht.used) k inside
        ∙ elim (Bool-cases (slot T ht k == i)) [
          | inl e ↦
              let e' : slot T ht k ≡ i = ground arith in
              rw (e, e') (search-unlink L ht.sizemask i key (bucket ht i) rest k (ok.chains i) out)
          | inr e ↦ elim (Bool-cases (compare_keys T key k)) [
            | inl equal ↦
                let e' : i ≡ slot T ht k = ap (λ h. bit_and h ht.sizemask) (L.hash key k equal) in
                absurd (ground (arith, e'))
            | inr ne ↦ rw (e, ne) refl
          ]
        ]

    still_empty : (j : ℕ) → bucket ht j ≡ [] → bucket ht' j ≡ []
    still_empty j z = elim (Bool-cases (i == j)) [
      | inl e ↦
          let e' : i ≡ j = ground arith in
          absurd (omega (arith, shorter.1, ap length (rw (← e') at z)))
      | inr e ↦ rw (get_or-set_ne ht.table i j rest [] (ground arith)) z
    ]

    deleted : Deleted ht key ht'
    deleted = record {
      there = shorter.2;
      ok =
          with_bucket-TableOk T ht i rest (pred64 ht.used) ok (omega (arith, inside, ok.len))
            shorter.0 (omega (arith, used', shorter.1));
      size = refl;
      count = sym used';
      finds = found;
      empty = still_empty;
    }

  delete_from-cases :
      (ht : Dictht K V) (key : K)
      → TableOk T ht
      → ((delete_from T ht key ≡ none) × (find_ht T ht key ≡ none))
        ⊎ ((h : Dictht K V) × (delete_from T ht key ≡ some h) × Deleted ht key h)
  unfolding delete_from
  delete_from-cases ht key ok = elim (Option-cases (unlink T key (bucket ht (slot T ht key)))) [
    | inl e ↦ inl (rw (e, delete_from) refl, unlink-none L key _ e)
    | inr (rest, e) ↦ inr (
      with_bucket ht (slot T ht key) rest (pred64 ht.used),
      rw (e, delete_from) refl,
      deleted ht key rest ok e,
    )
  ]

  module _ (d : Dict K V) (key : K) (v : IsValid T d) where
    first-IsRemove :
        (h : Dictht K V) → Deleted d.ht0 key h → IsRemove T d key (record d { ht0 = h })
    first-IsRemove h x = record {
      ok = record {
        ok0 = x.ok;
        ok1 = v.ok1;
        apart = λ k there. elim (Bool-cases (compare_keys T key k)) [
          | inl equal ↦ absurd (ground (arith, x.finds k))
          | inr ne ↦ v.apart k (ground (arith, x.finds k))
        ];
        phase = first_phase d.rehashidx v.phase;
      };
      entries = λ k. rw (x.finds k) (elim (Bool-cases (compare_keys T key k)) [
        | inl equal ↦ rw equal (sym (find_ht_eq L d.ht1 key k equal) ∙ v.apart key x.there)
        | inr ne ↦ rw ne refl
      ]);
      count = omega (arith, x.count);
      iterators = refl;
    }
      where
        first_phase : (r : Option ℕ) → Phase d r → Phase (record d { ht0 = h }) r
        first_phase none p = p
        first_phase (some n) p = (rw x.size p.0, p.1, λ j lt. x.empty j (p.2 j lt))

    second-IsRemove :
        (n : ℕ) (h : Dictht K V)
        → d.rehashidx ≡ some n
        → find_ht T d.ht0 key ≡ none
        → Deleted d.ht1 key h
        → IsRemove T d key (record d { ht1 = h })
    second-IsRemove n h e none_first x = record {
      ok = record {
        ok0 = v.ok0;
        ok1 = x.ok;
        apart = λ k there. rw (x.finds k, v.apart k there) (ground arith);
        phase = let p = busy d v n e in rw e (p.0, rw x.size p.1, p.2);
      };
      entries = λ k. rw (x.finds k) (elim (Bool-cases (compare_keys T key k)) [
        | inl equal ↦ rw (equal, ← find_ht_eq L d.ht0 key k equal, none_first) refl
        | inr ne ↦ rw ne refl
      ]);
      count = omega (arith, x.count);
      iterators = refl;
    }

    -- The loop over the two tables takes out the entry of the key, wherever it is.
    delete_entry_lem :
        ((delete_entry T d key ≡ (d, dict_err)) × (entry_of T d key ≡ none))
        ⊎ ((d' : Dict K V) × (delete_entry T d key ≡ (d', dict_ok))
            × (is_some (entry_of T d key) ≡ true)
            × IsRemove T d key d')
    unfolding delete_entry
    delete_entry_lem = elim (delete_from-cases d.ht0 key v.ok0) [
      | inr (h, runs, x) ↦ inr (
        record d { ht0 = h },
        rw (runs, delete_entry) refl,
        ground (arith, x.there),
        first-IsRemove h x,
      )
      | inl (runs, absent) ↦ elim (Option-cases d.rehashidx) [
        | inl e ↦
            let calm : dict_is_rehashing d ≡ false = rw e refl in
            inl (
              rw (runs, delete_entry) (rw calm refl),
              rw (absent, find_ht-eq-none T d.ht1 key (idle d v e)) refl,
            )
        | inr (n, e) ↦
            let moving : dict_is_rehashing d ≡ true = rw e refl in
            elim (delete_from-cases d.ht1 key v.ok1) [
              | inl (runs', absent') ↦
                  inl (rw (runs, delete_entry) (rw (moving, runs') refl), rw (absent, absent') refl)
              | inr (h, runs', x) ↦ inr (
                record d { ht1 = h },
                rw (runs, delete_entry) (rw (moving, runs') refl),
                rw absent x.there,
                second-IsRemove n h e absent x,
              )
            ]
      ]
    ]

  -- dictDelete of a key that is there: it answers DICT_OK and takes out that entry alone.
  pub dict_delete_there :
      (d : Dict K V) (key : K)
      → IsValid T d
      → is_some (entry_of T d key) ≡ true
      → (d' : Dict K V) × (dict_generic_delete T d key ≡ some (d', dict_ok)) × IsRemove T d key d'
  unfolding dict_generic_delete
  dict_delete_there d key v there = elim (Bool-cases (d.ht0.size == 0)) [
    | inl z ↦ absurd (ground (arith, no_table L d key v (ground arith)))
    | inr nz ↦
        let (d₁, s) = step_if_rehashing_lem L d v in
        elim (delete_entry_lem d₁ key s.ok) [
          | inl (runs, absent) ↦ absurd (ground (arith, s.same.entries key))
          | inr (d', runs, here, r) ↦ (
            d',
            rw nz (rw s.runs (rw runs refl)),
            record {
              ok = r.ok;
              entries = λ k. r.entries k ∙ rw (s.same.entries k) refl;
              count = omega (arith, r.count, s.same.count);
              iterators = r.iterators ∙ s.same.iterators;
            },
          )
        ]
  ]

  -- dictDelete of a key that is not there: it answers DICT_ERR and changes no entry.
  pub dict_delete_absent :
      (d : Dict K V) (key : K)
      → IsValid T d
      → entry_of T d key ≡ none
      → (d' : Dict K V) × (dict_generic_delete T d key ≡ some (d', dict_err))
        × IsValid T d'
        × IsSame T d d'
  unfolding dict_generic_delete
  dict_delete_absent d key v none_there = elim (Bool-cases (d.ht0.size == 0)) [
    | inl z ↦ (d, rw z refl, v, IsSame-refl d)
    | inr nz ↦
        let (d₁, s) = step_if_rehashing_lem L d v in
        elim (delete_entry_lem d₁ key s.ok) [
          | inl (runs, absent) ↦ (d₁, rw nz (rw s.runs (rw runs refl)), s.ok, s.same)
          | inr (d', runs, here, r) ↦ absurd (ground (arith, s.same.entries key))
        ]
  ]
