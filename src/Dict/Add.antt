-- ===== src/Dict/Add.antt =====
-- dictAddRaw and dictAdd on a valid dictionary.
use Prim.Native.Nat.{bit_and}
use commit_redis.Prelude.{
  ℕ, ◌+◌, ◌^◌, ◌<◌, ◌≡◌, refl, sym, ◌∙◌, ap, inl, inr, Bool, true, false, Option, none, some, arith,
  Bool-cases, Option-cases, if◌then◌else◌, ltb, ◌==◌, ◌-◌,
}
use commit_redis.Dict.Defs.{
  DictType, Dict, dict_ok, dict_err, is_some, slot, dict_size, compare_keys, dup_key, dup_val,
  insert_at, dict_is_rehashing,
}
use commit_redis.Dict.Ops.{int_index, dict_key_index, dict_add_raw, dict_add, step_if_rehashing}
use commit_redis.Dict.Chain.{KeyLaws}
use commit_redis.Dict.Table.{find_ht, slot-lt}
use commit_redis.Dict.Insert.{or_else, insert_at-TableOk, find_ht-insert_at}
use commit_redis.Dict.Valid.{
  IsValid, IsSame, IsSame-trans, entry_of, idle, busy, find_ht-eq-none, find_entry-eq-entry_of,
}
use commit_redis.Dict.Rehash.{step_if_rehashing_lem}
use commit_redis.Dict.Expand.{target, Fits, FitsInt, expand_if_needed_lem}
use commit_redis.Dict.Find.{find_ht_eq, entry_of_eq}

-- The dictionary after an entry has gone to the head of bucket `i` of the table for new entries.
abbrev pub inserted : {K V : Type 0} → Dict K V → ℕ → K × V → Dict K V
inserted d i e =
    if dict_is_rehashing d
    then record d { ht1 = insert_at i e d.ht1 }
    else record d { ht0 = insert_at i e d.ht0 }

-- `d'` is `d` with one more entry, of the key `key`.
pub record IsInsert {K V : Type 0} (T : DictType K V) (d : Dict K V) (key : K) (v : V)
    (d' : Dict K V) : Type 0 where
  pub ok : IsValid T d'
  pub entries :
      (k : K) → entry_of T d' k ≡ (if compare_keys T k key then some (key, v) else entry_of T d k)
  pub count : dict_size d' ≡ dict_size d + 1
  pub iterators : d'.iterators ≡ d.iterators

module _ {K V : Type 0} {T : DictType K V} (L : KeyLaws T) where
  or_else_first : {A : Type 0} (o p : Option A) → or_else o p ≡ none → (o ≡ none) × (p ≡ none)
  or_else_first none p e = (refl, e)
  or_else_first (some a) p e = cc

  if_swap :
      {A : Type 0} (b : Bool) (x : A) (o p : Option A)
      → (b ≡ true → o ≡ none)
      → or_else o (if b then some x else p) ≡ (if b then some x else or_else o p)
  if_swap true x o p h = rw (h refl) refl
  if_swap false x o p h = refl

  if_first :
      {A : Type 0} (b : Bool) (x : A) (o p : Option A)
      → or_else (if b then some x else o) p ≡ (if b then some x else or_else o p)
  if_first true x o p = refl
  if_first false x o p = refl

  module _ (d : Dict K V) (key : K) (v : V) (ok : IsValid T d) (new : entry_of T d key ≡ none) where
    rehashing-IsInsert :
        (i : ℕ)
        → d.rehashidx ≡ some i
        → IsInsert T d key v (record d { ht1 = insert_at (slot T d.ht1 key) (key, v) d.ht1 })
    unfolding insert_at
    rehashing-IsInsert i e =
        let here = or_else_first (find_ht T d.ht0 key) (find_ht T d.ht1 key) new in
        let room : 0 < d.ht1.size = (busy d ok i e).1 in
        let finds =
          λ (k : K). find_ht-insert_at L d.ht1 (slot T d.ht1 key) key v k ok.ok1 room refl in
        record {
          ok = record {
            ok0 = ok.ok0;
            ok1 = insert_at-TableOk L d.ht1 (slot T d.ht1 key) key v ok.ok1 room refl here.1;
            apart = λ k there. elim (Bool-cases (compare_keys T k key)) [
              | inl equal ↦ absurd (ground (arith, find_ht_eq L d.ht0 k key equal, here.0))
              | inr ne ↦ rw (finds k, ne) (ok.apart k there)
            ];
            phase = rw e (busy d ok i e);
          };
          entries = λ k. rw (finds k) (
              if_swap (compare_keys T k key) (key, v) (find_ht T d.ht0 k) (find_ht T d.ht1 k)
                (λ equal. find_ht_eq L d.ht0 k key equal ∙ here.0));
          count = omega arith;
          iterators = refl;
        }

    idle-IsInsert :
        d.rehashidx ≡ none
        → 0 < d.ht0.size
        → IsInsert T d key v (record d { ht0 = insert_at (slot T d.ht0 key) (key, v) d.ht0 })
    unfolding insert_at
    idle-IsInsert e room =
        let here = or_else_first (find_ht T d.ht0 key) (find_ht T d.ht1 key) new in
        let finds =
          λ (k : K). find_ht-insert_at L d.ht0 (slot T d.ht0 key) key v k ok.ok0 room refl in
        record {
          ok = record {
            ok0 = insert_at-TableOk L d.ht0 (slot T d.ht0 key) key v ok.ok0 room refl here.0;
            ok1 = ok.ok1;
            apart = λ k there. find_ht-eq-none T d.ht1 k (idle d ok e);
            phase = rw e (idle d ok e);
          };
          entries = λ k.
              rw (finds k)
                (if_first (compare_keys T k key) (key, v) (find_ht T d.ht0 k) (find_ht T d.ht1 k));
          count = omega arith;
          iterators = refl;
        }

    inserted_lem :
        0 < (target d).size → IsInsert T d key v (inserted d (slot T (target d) key) (key, v))
    inserted_lem room = elim (Option-cases d.rehashidx) [
      | inl e ↦
          let calm : dict_is_rehashing d ≡ false = rw e refl in
          rw calm (idle-IsInsert e (rw calm at room))
      | inr (i, e) ↦
          let busy : dict_is_rehashing d ≡ true = rw e refl in rw busy (rehashing-IsInsert i e)
    ]

  -- What _dictExpandIfNeeded and the step before it leave, with the answer of _dictKeyIndex.
  record Ready (can_resize : Bool) (d d₁ d₂ : Dict K V) : Type 0 where
    step : step_if_rehashing T d ≡ some d₁
    index :
        (key : K)
        → dict_key_index T can_resize d₁ key
          ≡ some
              (d₂, if is_some (entry_of T d key) then none else int_index (slot T (target d₂) key))
    ok : IsValid T d₂
    same : IsSame T d d₂
    room : 0 < (target d₂).size
    small : FitsInt d → (target d₂).size < 2 ^ 31

  ready :
      (can_resize : Bool) (d : Dict K V)
      → IsValid T d
      → Fits d
      → (d₁ : Dict K V) × (d₂ : Dict K V) × Ready can_resize d d₁ d₂
  unfolding dict_key_index
  ready can_resize d v fits =
      let (d₁, s) = step_if_rehashing_lem L d v in
      let (d₂, runs, x) =
        expand_if_needed_lem can_resize d₁ s.ok
          (s.sizes (2 ^ 61) fits.0, omega (arith, s.same.count)) in
      let same : IsSame T d d₂ = IsSame-trans s.same x.same in
      (
        d₁,
        d₂,
        record {
          step = s.runs;
          index = λ key.
              rw runs (rw (find_entry-eq-entry_of d₂ key x.ok, same.entries key) (ground arith));
          ok = x.ok;
          same = same;
          room = x.room;
          small = λ f. x.small (s.sizes (2 ^ 29) f.0, omega (arith, f.1, s.same.count));
        },
      )

  slot_below :
      (d : Dict K V) (key : K)
      → IsValid T d
      → 0 < (target d).size
      → slot T (target d) key < (target d).size
  slot_below d key v room = elim (Bool-cases (dict_is_rehashing d)) [
    | inl second ↦ rw second (slot-lt T d.ht1 key v.ok1 (rw second at room))
    | inr first ↦ rw first (slot-lt T d.ht0 key v.ok0 (rw first at room))
  ]

  index_kept : (i : ℕ) → i < 2 ^ 31 → int_index i ≡ some i
  index_kept i less = let other : (i == 2 ^ 32 - 1) ≡ false = ground arith in rw other refl

  index_low : (i : ℕ) → i < 2 ^ 31 → ltb i (2 ^ 31) ≡ true
  index_low i less = ground arith

  add_runs :
      (can_resize : Bool) (d d₁ d₂ : Dict K V) (key : K) (val : V) (i : ℕ)
      → step_if_rehashing T d ≡ some d₁
      → dict_key_index T can_resize d₁ key ≡ some (d₂, some i)
      → i < 2 ^ 31
      → dict_add T can_resize d key val
        ≡ some (inserted d₂ i (dup_key T key, dup_val T val), dict_ok)
  unfolding dict_add dict_add_raw
  add_runs can_resize d d₁ d₂ key val i e₁ e₂ less = elim (Bool-cases (dict_is_rehashing d₂)) [
    | inl busy ↦ rw (e₁, e₂, index_low i less, busy) refl
    | inr calm ↦ rw (e₁, e₂, index_low i less, calm) refl
  ]

  -- dictAdd of a key that is not there, with fewer than 2 ^ 29 buckets and entries: it answers
  -- DICT_OK, the copied key and value are the one entry that is new, and every other key finds what it
  -- found before.
  pub dict_add_new :
      (can_resize : Bool) (d : Dict K V) (key : K) (val : V)
      → IsValid T d
      → FitsInt d
      → entry_of T d key ≡ none
      → (d' : Dict K V) × (dict_add T can_resize d key val ≡ some (d', dict_ok))
        × IsInsert T d (dup_key T key) (dup_val T val) d'
  dict_add_new can_resize d key val v few new =
      let fits : Fits d =
        ((omega (arith, few.0.0), omega (arith, few.0.1)), omega (arith, few.1)) in
      let (d₁, d₂, r) = ready can_resize d v fits in
      let below : slot T (target d₂) (dup_key T key) < 2 ^ 31 =
        omega (arith, slot_below d₂ (dup_key T key) r.ok r.room, r.small few) in
      let absent : entry_of T d₂ (dup_key T key) ≡ none =
        sym (entry_of_eq L d₂ key (dup_key T key) (L.copy key)) ∙ r.same.entries key ∙ new in
      let at : slot T (target d₂) key ≡ slot T (target d₂) (dup_key T key) =
        ap (λ h. bit_and h (target d₂).sizemask) (L.hash key (dup_key T key) (L.copy key)) in
      let ins = inserted_lem d₂ (dup_key T key) (dup_val T val) r.ok absent r.room in
      (
        inserted d₂ (slot T (target d₂) (dup_key T key)) (dup_key T key, dup_val T val),
        add_runs can_resize d d₁ d₂ key val (slot T (target d₂) (dup_key T key)) r.step
            (r.index key ∙ rw (new, at) (ap (λ i. some (d₂, i)) (index_kept _ below))) below,
        record {
          ok = ins.ok;
          entries = λ k. ins.entries k ∙ rw (r.same.entries k) refl;
          count = omega (arith, ins.count, r.same.count);
          iterators = ins.iterators ∙ r.same.iterators;
        },
      )

  -- dictAdd of a key that is there: it answers DICT_ERR and changes no entry.
  pub dict_add_old :
      (can_resize : Bool) (d : Dict K V) (key : K) (val : V) (e : K × V)
      → IsValid T d
      → Fits d
      → entry_of T d key ≡ some e
      → (d' : Dict K V) × (dict_add T can_resize d key val ≡ some (d', dict_err))
        × IsValid T d'
        × IsSame T d d'
  unfolding dict_add dict_add_raw
  dict_add_old can_resize d key val e v fits old =
      let (d₁, d₂, r) = ready can_resize d v fits in
      (d₂, rw r.step (rw (r.index key) (rw old refl)), r.ok, r.same)
