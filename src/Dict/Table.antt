-- ===== src/Dict/Table.antt =====
-- One table: its entry count, lookup in it, its well-formedness, and what a write of one bucket does.
use Prim.Native.Nat.{bit_and}
use commit_redis.Prelude.{
  ℕ, zero, suc, ◌+◌, ◌-◌, ◌<◌, ◌≡◌, ◌≢◌, refl, sym, ap, ◌∙◌, inl, inr, Option, none, List, [], ◌∷◌,
  arith, if◌then◌else◌, ◌==◌, Bool-cases, length, get_or, set, length-set, get_or-set_self,
  get_or-set_ne, get_or-replicate, length-replicate, replicate,
}
use commit_redis.Prelude.Bits.{bit_and-le}
use commit_redis.Dict.Defs.{
  DictType, Chain, Dictht, is_some, slot, bucket, search, dict_reset, fresh_table,
}
use commit_redis.Dict.Chain.{KeyLaws, ChainOk, search_slot}

abbrev pub total : {E : Type 0} → List (List E) → ℕ
total [] = 0
total (c ∷ t) = length c + total t

pub total-set :
    {E : Type 0} (t : List (List E)) (i : ℕ) (c : List E)
    → i < length t
    → total (set t i c) + length (get_or t i []) ≡ total t + length c
total-set [] i c h = elim h [ ]
total-set (b ∷ t) zero c h = omega arith
total-set (b ∷ t) (suc i) c h = omega (arith, total-set t i c (omega arith))

pub total-replicate : (E : Type 0) (n : ℕ) → total (replicate {A = List E} n []) ≡ 0
total-replicate E zero = refl
total-replicate E (suc n) = omega (arith, total-replicate E n)

pub total_zero : {E : Type 0} (t : List (List E)) → ((j : ℕ) → get_or t j [] ≡ []) → total t ≡ 0
total_zero [] h = refl
total_zero (c ∷ t) h = omega (arith, ap length (h 0), total_zero t (λ j. h (suc j)))

-- The entry that dictFind's walk meets in one table.
abbrev pub find_ht : {K V : Type 0} → DictType K V → Dictht K V → K → Option (K × V)
find_ht T ht k = search T k (bucket ht (slot T ht k))

pub record TableOk {K V : Type 0} (T : DictType K V) (ht : Dictht K V) : Type 0 where
  pub len : length ht.table ≡ ht.size
  pub mask : ht.sizemask ≡ ht.size - 1
  pub count : ht.used ≡ total ht.table
  pub chains : (i : ℕ) → ChainOk T ht.sizemask i (bucket ht i)

-- `ht` with another chain in bucket `i` and another count.
abbrev pub with_bucket : {K V : Type 0} → Dictht K V → ℕ → Chain K V → ℕ → Dictht K V
with_bucket ht i c n = record ht { table = set ht.table i c; used = n }

module _ {K V : Type 0} (T : DictType K V) where
  pub slot-lt : (ht : Dictht K V) (k : K) → TableOk T ht → 0 < ht.size → slot T ht k < ht.size
  slot-lt ht k ok h = omega (arith, bit_and-le (T.hash_function k) ht.sizemask, ok.mask)

  pub find_ht-with_bucket :
      (ht : Dictht K V) (i : ℕ) (c : Chain K V) (n : ℕ) (k : K)
      → i < length ht.table
      → find_ht T (with_bucket ht i c n) k
        ≡ (if slot T ht k == i then search T k c else find_ht T ht k)
  find_ht-with_bucket ht i c n k h = elim (Bool-cases (slot T ht k == i)) [
    | inl e ↦
        let e' : slot T ht k ≡ i = ground arith in
        rw (e, e', get_or-set_self ht.table i c [] h) refl
    | inr e ↦
        let e' : i ≢ slot T ht k = ground arith in
        rw (e, get_or-set_ne ht.table i (slot T ht k) c [] e') refl
  ]

  pub with_bucket-TableOk :
      (ht : Dictht K V) (i : ℕ) (c : Chain K V) (n : ℕ)
      → TableOk T ht
      → i < ht.size
      → ChainOk T ht.sizemask i c
      → n + length (bucket ht i) ≡ ht.used + length c
      → TableOk T (with_bucket ht i c n)
  with_bucket-TableOk ht i c n ok h good e = record {
    len = length-set ht.table i c ∙ ok.len;
    mask = ok.mask;
    count = omega (arith, total-set ht.table i c (omega (arith, ok.len)), ok.count);
    chains = λ j. elim (Bool-cases (j == i)) [
      | inl same ↦
          let e' : j ≡ i = ground arith in
          rw (e', get_or-set_self ht.table i c [] (omega (arith, ok.len))) good
      | inr other ↦
          let e' : i ≢ j = ground arith in rw (get_or-set_ne ht.table i j c [] e') (ok.chains j)
    ];
  }

  pub fresh_table-TableOk : (n : ℕ) → TableOk T (fresh_table n)
  fresh_table-TableOk n = record {
    len = length-replicate n [];
    mask = refl;
    count = sym (total-replicate (K × V) n);
    chains = λ i. rw (get_or-replicate {A = Chain K V} n i []) tt;
  }

  pub dict_reset-TableOk : TableOk T dict_reset
  dict_reset-TableOk = record { len = refl; mask = refl; count = refl; chains = λ i. tt }

  pub find_ht-fresh_table : (n : ℕ) (k : K) → find_ht T (fresh_table n) k ≡ none
  unfolding search
  find_ht-fresh_table n k =
      rw (get_or-replicate {A = Chain K V} n (bit_and (T.hash_function k) (n - 1)) []) refl

  -- A lookup in a well-formed table finds the key's own bucket only.
  pub search_other :
      (L : KeyLaws T) (ht : Dictht K V) (i : ℕ) (k : K)
      → TableOk T ht
      → slot T ht k ≢ i
      → search T k (bucket ht i) ≡ none
  search_other L ht i k ok ne = elim (Bool-cases (is_some (search T k (bucket ht i)))) [
    | inl there ↦ absurd (ne (search_slot L ht.sizemask i k (bucket ht i) (ok.chains i) there))
    | inr not_there ↦ ground arith
  ]
