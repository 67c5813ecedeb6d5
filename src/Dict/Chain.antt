-- ===== src/Dict/Chain.antt =====
-- Lemmas on one chain of entries: lookup, removal and the write of a value.
use Prim.Native.Nat.{bit_and}
use commit_redis.Prelude.{
  ℕ, suc, ◌≡◌, refl, inl, inr, true, Option, none, some, [], ◌∷◌, arith, if◌then◌else◌, Bool-cases,
  Option-cases, length,
}
use commit_redis.Dict.Defs.{
  DictType, Chain, is_some, compare_keys, dup_key, search, unlink, write_val,
}

-- What dict.c relies on of the callbacks of a `dictType`: the comparison is an equivalence that the
-- hash respects, and a copied key equals the key.
pub record KeyLaws {K V : Type 0} (T : DictType K V) : Type 0 where
  pub same : (a : K) → compare_keys T a a ≡ true
  pub swap : (a b : K) → compare_keys T a b ≡ compare_keys T b a
  pub join : (a b c : K) → compare_keys T a b ≡ true → compare_keys T a c ≡ compare_keys T b c
  pub hash : (a b : K) → compare_keys T a b ≡ true → T.hash_function a ≡ T.hash_function b
  pub copy : (a : K) → compare_keys T a (dup_key T a) ≡ true

-- Every key of the chain belongs to bucket `i` under the mask, and no two are equal.
abbrev pub ChainOk : {K V : Type 0} → DictType K V → ℕ → ℕ → Chain K V → Type 0
ChainOk T mask i [] = Unit
ChainOk T mask i ((k, v) ∷ next) =
    (bit_and (T.hash_function k) mask ≡ i) × (search T k next ≡ none) × ChainOk T mask i next

abbrev pub with_val : {K V : Type 0} → V → Option (K × V) → Option (K × V)
with_val w none = none
with_val w (some (k, v)) = some (k, w)

module _ {K V : Type 0} {T : DictType K V} (L : KeyLaws T) where
  pub search_eq :
      (a b : K) (c : Chain K V) → compare_keys T a b ≡ true → search T a c ≡ search T b c
  unfolding search
  search_eq a b [] e = refl
  search_eq a b ((k, v) ∷ next) e = rw (L.join a b k e, search_eq a b next e)

  pub search_slot :
      (mask i : ℕ) (key : K) (c : Chain K V)
      → ChainOk T mask i c
      → is_some (search T key c) ≡ true
      → bit_and (T.hash_function key) mask ≡ i
  unfolding search
  search_slot mask i key [] ok e = cc
  search_slot mask i key ((k, v) ∷ next) ok e = elim (Bool-cases (compare_keys T key k)) [
    | inl hit ↦ rw (L.hash key k hit) (ok.0)
    | inr miss ↦ search_slot mask i key next ok.2 (rw miss at e)
  ]

  -- `unlink` takes out the one entry of the key and leaves the others as they were.
  pub search-unlink :
      (mask i : ℕ) (key : K) (c rest : Chain K V) (k : K)
      → ChainOk T mask i c
      → unlink T key c ≡ some rest
      → search T k rest ≡ (if compare_keys T key k then none else search T k c)
  unfolding search unlink
  search-unlink mask i key [] rest k ok e = cc
  search-unlink mask i key ((j, v) ∷ next) rest k ok e = elim (Option-cases (unlink T key next)) [
    | inl out ↦ ground (
      arith,
      L.join key j k,
      L.join key k j,
      L.swap j k,
      search_eq key k next,
      search_eq key j next,
    )
    | inr (r, found) ↦ ground (
      arith,
      search-unlink mask i key next r k,
      L.join key j k,
      L.join key k j,
      L.swap j k,
      search_eq key k next,
      search_eq key j next,
    )
  ]

  pub unlink-ChainOk :
      (mask i : ℕ) (key : K) (c rest : Chain K V)
      → ChainOk T mask i c
      → unlink T key c ≡ some rest
      → ChainOk T mask i rest × (length c ≡ suc (length rest)) × (is_some (search T key c) ≡ true)
  unfolding search unlink
  unlink-ChainOk mask i key [] rest ok e = cc
  unlink-ChainOk mask i key ((j, v) ∷ next) rest ok e = elim (Bool-cases (compare_keys T key j)) [
    | inl hit ↦ let same : rest ≡ next = ground arith in rw (same, hit) (ok.2, refl, refl)
    | inr miss ↦ elim (Option-cases (unlink T key next)) [
      | inl out ↦ ground arith
      | inr (r, found) ↦
          let (good, len, there) = unlink-ChainOk mask i key next r ok.2 found in
          let keep = search-unlink mask i key next r j ok.2 found in
          let same : rest ≡ (j, v) ∷ r = ground arith in
          rw (same, miss) ((ok.0, ground arith, good), ground arith, there)
    ]
  ]

  pub unlink-none : (key : K) (c : Chain K V) → unlink T key c ≡ none → search T key c ≡ none
  unfolding search unlink
  unlink-none key [] e = refl
  unlink-none key ((k, v) ∷ next) e = ground (arith, unlink-none key next)

  -- `write_val` changes the value of the entry of the key and nothing else.
  pub search-write_val :
      (key k : K) (w : V) (c : Chain K V)
      → search T k (write_val T key w c)
        ≡ (if compare_keys T key k then with_val w (search T k c) else search T k c)
  unfolding search write_val
  search-write_val key k w [] = ground arith
  search-write_val key k w ((k', v) ∷ next) =
      ground (arith, L.join key k' k, L.swap k' k, L.join key k k', search-write_val key k w next)

  pub write_val-ChainOk :
      (mask i : ℕ) (key : K) (w : V) (c : Chain K V)
      → ChainOk T mask i c
      → ChainOk T mask i (write_val T key w c)
  unfolding write_val
  write_val-ChainOk mask i key w [] ok = tt
  write_val-ChainOk mask i key w ((k, v) ∷ next) ok =
      ground
        (arith, write_val-ChainOk mask i key w next, search-write_val key k w next, L.swap k key)

  pub length-write_val : (key : K) (w : V) (c : Chain K V) → length (write_val T key w c) ≡ length c
  unfolding write_val
  length-write_val key w [] = refl
  length-write_val key w ((k, v) ∷ next) = ground (arith, length-write_val key w next)
