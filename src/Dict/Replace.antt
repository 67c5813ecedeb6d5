-- ===== src/Dict/Replace.antt =====
-- dictReplace and dictFetchValue on a valid dictionary.
use Prim.Native.Nat.{bit_and}
use native.Mathlib.Decide.{dec_lt}
use commit_redis.Prelude.{
  ℕ, ◌<◌, ◌≡◌, ◌≢◌, refl, sym, ◌∙◌, ap, inl, inr, Bool, true, false, Option, none, some, [], arith,
  Bool-cases, Option-cases, if◌then◌else◌, ◌==◌, length, get_or-ge, get_or-set_ne,
}
use commit_redis.Dict.Defs.{
  DictType, Dict, Dictht, Chain, is_some, slot, bucket, dict_size, search, write_val, compare_keys,
  dup_key, dup_val,
}
use commit_redis.Dict.Ops.{set_entry_val, dict_replace}
use commit_redis.Dict.Chain.{
  KeyLaws, with_val, search-write_val, write_val-ChainOk, length-write_val,
}
use commit_redis.Dict.Table.{
  find_ht, TableOk, with_bucket, find_ht-with_bucket, with_bucket-TableOk,
}
use commit_redis.Dict.Insert.{or_else}
use commit_redis.Dict.Valid.{IsValid, Phase, entry_of, idle, busy, find_ht-eq-none}
use commit_redis.Dict.Expand.{Fits, FitsInt}
use commit_redis.Dict.Find.{find_ht_eq, dict_find_lem}
use commit_redis.Dict.Add.{IsInsert, dict_add_new, dict_add_old}

-- `d'` is `d` with `w` for the value of the entry of `key`.
pub record IsUpdate {K V : Type 0} (T : DictType K V) (d : Dict K V) (key : K) (w : V)
    (d' : Dict K V) : Type 0 where
  pub ok : IsValid T d'
  pub entries :
      (k : K)
      → entry_of T d' k
        ≡ (if compare_keys T key k then with_val w (entry_of T d k) else entry_of T d k)
  pub count : dict_size d' ≡ dict_size d
  pub iterators : d'.iterators ≡ d.iterators

module _ {K V : Type 0} {T : DictType K V} (L : KeyLaws T) where
  -- The write on one table.
  record Written (ht : Dictht K V) (key : K) (w : V) (ht' : Dictht K V) : Type 0 where
    ok : TableOk T ht'
    finds :
        (k : K)
        → find_ht T ht' k
          ≡ (if compare_keys T key k then with_val w (find_ht T ht k) else find_ht T ht k)
    empty : (j : ℕ) → bucket ht j ≡ [] → bucket ht' j ≡ []

  module _ (ht : Dictht K V) (key : K) (w : V) (ok : TableOk T ht)
      (there : is_some (find_ht T ht key) ≡ true) where
    abbrev i : ℕ
    i = slot T ht key

    abbrev c' : Chain K V
    c' = write_val T key w (bucket ht i)

    some_entry : bucket ht i ≢ []
    unfolding search
    some_entry z = let gone : find_ht T ht key ≡ none = rw z refl in cc (gone, there)

    inside : i < length ht.table
    inside = elim (dec_lt i (length ht.table)) [
      | yes lt ↦ lt
      | no ge ↦ absurd (some_entry (get_or-ge ht.table i [] (omega arith)))
    ]

    written : Written ht key w (with_bucket ht i c' ht.used)
    written = record {
      ok =
          with_bucket-TableOk T ht i c' ht.used ok (omega (arith, inside, ok.len))
            (write_val-ChainOk L ht.sizemask i key w (bucket ht i) (ok.chains i))
            (omega (arith, length-write_val L key w (bucket ht i)));
      finds = λ k.
          find_ht-with_bucket T ht i c' ht.used k inside ∙ elim (Bool-cases (slot T ht k == i)) [
            | inl e ↦
                let e' : slot T ht k ≡ i = ground arith in
                rw (e, e') (search-write_val L key k w (bucket ht i))
            | inr e ↦ elim (Bool-cases (compare_keys T key k)) [
              | inl equal ↦
                  let e' : i ≡ slot T ht k = ap (λ h. bit_and h ht.sizemask) (L.hash key k equal) in
                  absurd (ground (arith, e'))
              | inr ne ↦ rw (e, ne) refl
            ]
          ];
      empty = λ j z. elim (Bool-cases (i == j)) [
        | inl e ↦ let e' : i ≡ j = ground arith in absurd (some_entry (rw e' z))
        | inr e ↦ rw (get_or-set_ne ht.table i j c' [] (ground arith)) z
      ];
    }

  is_some-with_val :
      (b : Bool) (w : V) (o : Option (K × V)) → is_some (if b then with_val w o else o) ≡ is_some o
  is_some-with_val true w none = refl
  is_some-with_val true w (some (k, v)) = refl
  is_some-with_val false w o = refl

  or_else-with_val :
      (b : Bool) (w : V) (o p : Option (K × V))
      → (b ≡ true → (is_some o ≡ true) × (p ≡ none))
      → or_else (if b then with_val w o else o) p
        ≡ (if b then with_val w (or_else o p) else or_else o p)
  or_else-with_val false w o p h = refl
  or_else-with_val true w none p h = absurd (cc ((h refl).0))
  or_else-with_val true w (some (k, v)) p h = refl

  is_some-none : (o : Option (K × V)) → is_some o ≡ false → o ≡ none
  is_some-none none h = refl
  is_some-none (some e) h = cc

  module _ (d : Dict K V) (key : K) (w : V) (v : IsValid T d)
      (there : is_some (entry_of T d key) ≡ true) where
    write_first :
        (h : Dictht K V)
        → Written d.ht0 key w h
        → h.size ≡ d.ht0.size
        → h.used ≡ d.ht0.used
        → is_some (find_ht T d.ht0 key) ≡ true
        → IsUpdate T d key w (record d { ht0 = h })
    write_first h x size used first = record {
      ok = record {
        ok0 = x.ok;
        ok1 = v.ok1;
        apart = λ k here. v.apart k (
            sym (is_some-with_val (compare_keys T key k) w (find_ht T d.ht0 k))
            ∙ rw (x.finds k) at here);
        phase = first_phase d.rehashidx v.phase;
      };
      entries = λ k. rw (x.finds k) (
          or_else-with_val (compare_keys T key k) w (find_ht T d.ht0 k) (find_ht T d.ht1 k)
            (λ equal.
              let here : is_some (find_ht T d.ht0 k) ≡ true =
                rw (find_ht_eq L d.ht0 key k equal) at first in
              (here, v.apart k here)));
      count = omega (arith, used);
      iterators = refl;
    }
      where
        first_phase : (r : Option ℕ) → Phase d r → Phase (record d { ht0 = h }) r
        first_phase none p = p
        first_phase (some n) p = (rw size p.0, p.1, λ j lt. x.empty j (p.2 j lt))

    write_second :
        (n : ℕ) (h : Dictht K V)
        → d.rehashidx ≡ some n
        → find_ht T d.ht0 key ≡ none
        → Written d.ht1 key w h
        → h.size ≡ d.ht1.size
        → h.used ≡ d.ht1.used
        → IsUpdate T d key w (record d { ht1 = h })
    write_second n h e absent x size used = record {
      ok = record {
        ok0 = v.ok0;
        ok1 = x.ok;
        apart = λ k here. rw (x.finds k, v.apart k here) (ground arith);
        phase = let p = busy d v n e in rw e (p.0, rw size p.1, p.2);
      };
      entries = λ k. rw (x.finds k) (elim (Bool-cases (compare_keys T key k)) [
        | inl equal ↦ rw (equal, ← find_ht_eq L d.ht0 key k equal, absent) refl
        | inr ne ↦ rw ne refl
      ]);
      count = omega (arith, used);
      iterators = refl;
    }

    set_entry_val_lem : IsUpdate T d key w (set_entry_val T d key w)
    unfolding set_entry_val
    set_entry_val_lem = elim (Bool-cases (is_some (find_ht T d.ht0 key))) [
      | inl first ↦ rw first (write_first _ (written d.ht0 key w v.ok0 first) refl refl first)
      | inr other ↦ elim (Option-cases d.rehashidx) [
        | inl e ↦ absurd (
            ground (
              arith,
              is_some-none (find_ht T d.ht0 key) other,
              find_ht-eq-none T d.ht1 key (idle d v e),
            ))
        | inr (n, e) ↦
            let absent = is_some-none (find_ht T d.ht0 key) other in
            let second : is_some (find_ht T d.ht1 key) ≡ true = rw absent at there in
            rw other (write_second n _ e absent (written d.ht1 key w v.ok1 second) refl refl)
      ]
    ]

  -- dictReplace of a key that is not there, with fewer than 2 ^ 29 buckets and entries, adds the entry
  -- and answers 1.
  pub dict_replace_new :
      (can_resize : Bool) (d : Dict K V) (key : K) (val : V)
      → IsValid T d
      → FitsInt d
      → entry_of T d key ≡ none
      → (d' : Dict K V) × (dict_replace T can_resize d key val ≡ some (d', true))
        × IsInsert T d (dup_key T key) (dup_val T val) d'
  unfolding dict_replace
  dict_replace_new can_resize d key val v fits new =
      let (d', runs, x) = dict_add_new L can_resize d key val v fits new in (d', rw runs refl, x)

  -- dictReplace of a key that is there writes the copied value into its entry, changes nothing
  -- else, and answers 0.
  pub dict_replace_old :
      (can_resize : Bool) (d : Dict K V) (key : K) (val : V) (e : K × V)
      → IsValid T d
      → Fits d
      → entry_of T d key ≡ some e
      → (d' : Dict K V) × (dict_replace T can_resize d key val ≡ some (d', false))
        × IsUpdate T d key (dup_val T val) d'
  unfolding dict_replace
  dict_replace_old can_resize d key val e v fits old =
      let (d₁, added, ok₁, same₁) = dict_add_old L can_resize d key val e v fits old in
      let (d₂, found, ok₂, same₂) = dict_find_lem L d₁ key ok₁ in
      let back : (k : K) → entry_of T d₂ k ≡ entry_of T d k =
        λ k. same₂.entries k ∙ same₁.entries k in
      let x = set_entry_val_lem d₂ key (dup_val T val) ok₂ (rw (back key, old) refl) in
      (
        set_entry_val T d₂ key (dup_val T val),
        rw added (rw found (rw (same₁.entries key, old) refl)),
        record {
          ok = x.ok;
          entries = λ k. x.entries k ∙ rw (back k) refl;
          count = x.count ∙ same₂.count ∙ same₁.count;
          iterators = x.iterators ∙ same₂.iterators ∙ same₁.iterators;
        },
      )
