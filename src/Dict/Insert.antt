-- ===== src/Dict/Insert.antt =====
-- An entry put at the head of its chain, and a whole chain moved to another table.
use Prim.Native.Nat.{bit_and}
use commit_redis.Prelude.{
  ℕ, ◌+◌, ◌-◌, ◌<◌, ◌≤◌, ◌≡◌, refl, ap, ◌∙◌, inl, inr, Option, none, some, [], ◌∷◌, arith,
  if◌then◌else◌, ◌==◌, Bool-cases, length, true,
}
use commit_redis.Dict.Defs.{
  DictType, Chain, Dictht, is_some, compare_keys, slot, bucket, search, insert_at, move_chain,
  pred64,
}
use commit_redis.Dict.Chain.{KeyLaws, ChainOk, search_eq}
use commit_redis.Dict.Table.{find_ht, TableOk, slot-lt, find_ht-with_bucket, with_bucket-TableOk}

abbrev pub or_else : {A : Type 0} → Option A → Option A → Option A
or_else none b = b
or_else (some a) b = some a

module _ {K V : Type 0} {T : DictType K V} (L : KeyLaws T) where
  pub insert_at-TableOk :
      (ht : Dictht K V) (i : ℕ) (key : K) (v : V)
      → TableOk T ht
      → 0 < ht.size
      → slot T ht key ≡ i
      → find_ht T ht key ≡ none
      → TableOk T (insert_at i (key, v) ht)
  unfolding insert_at
  insert_at-TableOk ht i key v ok pos e new =
      with_bucket-TableOk T ht i ((key, v) ∷ bucket ht i) (ht.used + 1) ok
        (omega (arith, slot-lt T ht key ok pos)) (e, rw e at new, ok.chains i) (omega arith)

  pub find_ht-insert_at :
      (ht : Dictht K V) (i : ℕ) (key : K) (v : V) (k : K)
      → TableOk T ht
      → 0 < ht.size
      → slot T ht key ≡ i
      → find_ht T (insert_at i (key, v) ht) k
        ≡ (if compare_keys T k key then some (key, v) else find_ht T ht k)
  unfolding insert_at search
  find_ht-insert_at ht i key v k ok pos e =
      find_ht-with_bucket T ht i ((key, v) ∷ bucket ht i) (ht.used + 1) k
        (omega (arith, slot-lt T ht key ok pos, ok.len))
      ∙ elim (Bool-cases (slot T ht k == i)) [
        | inl same ↦ let e' : slot T ht k ≡ i = ground arith in rw (same, e') refl
        | inr other ↦ elim (Bool-cases (compare_keys T k key)) [
          | inl equal ↦
              let e' : slot T ht k ≡ slot T ht key =
                ap (λ h. bit_and h ht.sizemask) (L.hash k key equal) in
              ground (arith, e')
          | inr ne ↦ rw (other, ne) refl
        ]
      ]

  -- What `ht[1]` and the count of `ht[0]` are after a chain has moved.
  pub record Moved (c : Chain K V) (used : ℕ) (ht : Dictht K V) (r : ℕ × Dictht K V) : Type 0 where
    pub left : r.0 + length c ≡ used
    pub ok : TableOk T r.1
    pub size : r.1.size ≡ ht.size
    pub taken : r.1.used ≡ ht.used + length c
    pub finds : (k : K) → find_ht T r.1 k ≡ or_else (search T k c) (find_ht T ht k)

  swap_order :
      (key k : K) (v : V) (next : Chain K V)
      → search T key next ≡ none
      → (o : Option (K × V))
      → or_else (search T k next) (if compare_keys T k key then some (key, v) else o)
        ≡ or_else (if compare_keys T k key then some (key, v) else search T k next) o
  swap_order key k v next out o = elim (Bool-cases (compare_keys T k key)) [
    | inl equal ↦ rw (equal, search_eq L k key next equal, out) refl
    | inr ne ↦ rw ne refl
  ]

  pub move_chain_lem :
      (mask i : ℕ) (c : Chain K V) (used : ℕ) (ht : Dictht K V)
      → ChainOk T mask i c
      → length c ≤ used
      → TableOk T ht
      → 0 < ht.size
      → ((k : K) → is_some (search T k c) ≡ true → find_ht T ht k ≡ none)
      → Moved c used ht (move_chain T c used ht)
  unfolding move_chain search insert_at
  move_chain_lem mask i [] used ht good le ok pos new = record {
    left = omega arith;
    ok = ok;
    size = refl;
    taken = omega arith;
    finds = λ k. refl;
  }
  move_chain_lem mask i ((key, v) ∷ next) used ht good le ok pos new =
      let ht' : Dictht K V = insert_at (slot T ht key) (key, v) ht in
      let absent : find_ht T ht key ≡ none = new key (rw (L.same key) refl) in
      let found = λ (k : K). find_ht-insert_at ht (slot T ht key) key v k ok pos refl in
      let ok' : TableOk T ht' = insert_at-TableOk ht (slot T ht key) key v ok pos refl absent in
      let len : pred64 used ≡ used - 1 = ground arith in
      let rest =
        move_chain_lem mask i next (pred64 used) ht' good.2 (omega arith) ok' pos (λ k there.
          elim (Bool-cases (compare_keys T k key)) [
            | inl equal ↦ absurd (ground (arith, search_eq L k key next equal))
            | inr ne ↦ rw (found k, ne) (new k (rw ne there))
          ]) in
      record {
        left = omega (arith, rest.left);
        ok = rest.ok;
        size = rest.size;
        taken = omega (arith, rest.taken);
        finds = λ k. rest.finds k ∙ rw (found k) (swap_order key k v next good.1 (find_ht T ht k));
      }
