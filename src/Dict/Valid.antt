-- ===== src/Dict/Valid.antt =====
-- The invariant of a dictionary, and the map from keys to entries that it stands for.
use commit_redis.Prelude.{
  ℕ, zero, suc, ◌+◌, ◌<◌, ◌≤◌, ◌≡◌, ◌≢◌, refl, inl, inr, Option, none, some, List, [], ◌∷◌, arith,
  length, get_or, get_elem?, true, sym, ◌∙◌, Option-cases, get_or-ge, get_elem?-eq-get_or,
}
use mathlib.Core.Path.{subst}
use native.Mathlib.Decide.{dec_lt}
use commit_redis.Dict.Defs.{
  DictType, Dictht, Dict, is_some, bucket, search, dict_reset, dict_size, skip_empty,
}
use commit_redis.Dict.Ops.{find_entry}
use commit_redis.Dict.Table.{find_ht, TableOk, total, total_zero}
use commit_redis.Dict.Insert.{or_else}

-- While a rehash goes on both tables are there, and the buckets before `rehashidx` are empty.
abbrev pub Phase : {K V : Type 0} → Dict K V → Option ℕ → Type 0
Phase d none = d.ht1 ≡ dict_reset
Phase d (some i) = (0 < d.ht0.size) × (0 < d.ht1.size) × ((j : ℕ) → j < i → bucket d.ht0 j ≡ [])

pub record IsValid {K V : Type 0} (T : DictType K V) (d : Dict K V) : Type 0 where
  pub ok0 : TableOk T d.ht0
  pub ok1 : TableOk T d.ht1
  pub apart : (k : K) → is_some (find_ht T d.ht0 k) ≡ true → find_ht T d.ht1 k ≡ none
  pub phase : Phase d d.rehashidx

-- The entry of a key, wherever it is.
abbrev pub entry_of : {K V : Type 0} → DictType K V → Dict K V → K → Option (K × V)
entry_of T d k = or_else (find_ht T d.ht0 k) (find_ht T d.ht1 k)

-- `d'` holds the same entries as `d`.
pub record IsSame {K V : Type 0} (T : DictType K V) (d d' : Dict K V) : Type 0 where
  pub entries : (k : K) → entry_of T d' k ≡ entry_of T d k
  pub count : dict_size d' ≡ dict_size d
  pub iterators : d'.iterators ≡ d.iterators

-- Both tables have fewer than `b` buckets.
abbrev pub SizesBelow : {K V : Type 0} → ℕ → Dict K V → Type 0
SizesBelow b d = (d.ht0.size < b) × (d.ht1.size < b)

module _ {K V : Type 0} {T : DictType K V} (d : Dict K V) (v : IsValid T d) where
  pub idle : d.rehashidx ≡ none → d.ht1 ≡ dict_reset
  idle e = subst (λ r. Phase d r) e v.phase

  pub busy : (i : ℕ) → d.rehashidx ≡ some i → Phase d (some i)
  busy i e = subst (λ r. Phase d r) e v.phase

module _ {K V : Type 0} (T : DictType K V) where
  pub find_ht-eq-none : (ht : Dictht K V) (k : K) → ht ≡ dict_reset → find_ht T ht k ≡ none
  unfolding search
  find_ht-eq-none ht k e = subst (λ (h : Dictht K V). find_ht T h k ≡ none) (sym e) refl

module _ {K V : Type 0} {T : DictType K V} where
  pub find_entry-eq-entry_of :
      (d : Dict K V) (k : K) → IsValid T d → find_entry T d k ≡ entry_of T d k
  unfolding find_entry
  find_entry-eq-entry_of d k v = elim (Option-cases d.rehashidx) [
    | inl e ↦ ground (arith, find_ht-eq-none T d.ht1 k (idle d v e))
    | inr (i, e) ↦ ground arith
  ]

module _ {K V : Type 0} {T : DictType K V} where
  pub IsSame-refl : (d : Dict K V) → IsSame T d d
  IsSame-refl d = record { entries = λ k. refl; count = refl; iterators = refl }

  pub IsSame-trans : {d d' d'' : Dict K V} → IsSame T d d' → IsSame T d' d'' → IsSame T d d''
  IsSame-trans s t = record {
    entries = λ k. t.entries k ∙ s.entries k;
    count = t.count ∙ s.count;
    iterators = t.iterators ∙ s.iterators;
  }

pub all_empty :
    {E : Type 0} (t : List (List E)) (i : ℕ)
    → length t ≤ i
    → ((j : ℕ) → j < i → get_or t j [] ≡ [])
    → total t ≡ 0
all_empty t i le before =
    total_zero t
      λ j. elim (dec_lt j i) [ yes lt ↦ before j lt | no ge ↦ get_or-ge t j [] (omega arith) ]

-- The walk over empty buckets ends at a bucket with entries, when there is one.
pub record Skipped {E : Type 0} (t : List (List E)) (i : ℕ) (n : ℕ) : Type 0 where
  pub from : i ≤ n
  pub inside : n < length t
  pub before : (j : ℕ) → j < n → get_or t j [] ≡ []
  pub there : get_or t n [] ≢ []

pub skip_empty_lem :
    {E : Type 0} (fuel : ℕ) (t : List (List E)) (i : ℕ)
    → length t ≡ i + fuel
    → total t ≢ 0
    → ((j : ℕ) → j < i → get_or t j [] ≡ [])
    → (n : ℕ) × (skip_empty fuel t i ≡ some n) × Skipped t i n
unfolding skip_empty
skip_empty_lem zero t i len some_there before =
    absurd (some_there (all_empty t i (omega arith) before))
skip_empty_lem {E} (suc fuel) t i len some_there before =
    at_bucket (get_or t i []) refl (skip_empty_lem fuel t (i + 1) (omega arith) some_there)
  where
    in_range : i < length t
    in_range = omega arith

    extend : get_or t i [] ≡ [] → (j : ℕ) → j < i + 1 → get_or t j [] ≡ []
    extend e j lt = elim (dec_lt j i) [
      | yes below ↦ before j below
      | no above ↦ let same : j ≡ i = omega arith in rw same e
    ]

    at_bucket :
        (c : List E)
        → get_or t i [] ≡ c
        → (((j : ℕ) → j < i + 1 → get_or t j [] ≡ [])
            → (n : ℕ) × (skip_empty fuel t (i + 1) ≡ some n) × Skipped t (i + 1) n)
        → (n : ℕ) × (skip_empty (suc fuel) t i ≡ some n) × Skipped t i n
    at_bucket [] e later =
        let (n, runs, s) = later (extend e) in
        let read : get_elem? t i ≡ some [] = rw e at (get_elem?-eq-get_or t i [] in_range) in
        (
          n,
          rw (read, skip_empty) runs,
          record {
            from = omega (arith, s.from);
            inside = s.inside;
            before = s.before;
            there = s.there;
          },
        )
    at_bucket (x ∷ c) e later =
        let read : get_elem? t i ≡ some (x ∷ c) = rw e at (get_elem?-eq-get_or t i [] in_range) in
        (
          i,
          rw (read, skip_empty) refl,
          record {
            from = omega arith;
            inside = in_range;
            before = before;
            there = λ none_there. cc;
          },
        )
