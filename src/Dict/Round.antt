-- ===== src/Dict/Round.antt =====
-- One round of dictRehash: the next bucket that is not empty moves to the second table.
use native.Mathlib.Decide.{dec_lt}
use commit_redis.Prelude.{
  ℕ, ◌+◌, ◌-◌, ◌<◌, ◌≤◌, ◌≡◌, ◌≢◌, refl, ◌∙◌, inl, inr, true, none, some, [], arith, length, lt→ltb,
  ◌==◌, if◌then◌else◌, Bool-cases, get_or-set_ne, get_or-set_self, length_pos,
}
use commit_redis.Dict.Defs.{
  DictType, Dictht, Dict, is_some, slot, bucket, search, skip_empty, move_chain,
}
use commit_redis.Dict.Ops.{rehash_bucket}
use commit_redis.Dict.Chain.{KeyLaws, search_slot}
use commit_redis.Dict.Table.{
  find_ht, total-set, with_bucket, find_ht-with_bucket, with_bucket-TableOk, search_other,
}
use commit_redis.Dict.Insert.{Moved, move_chain_lem}
use commit_redis.Dict.Valid.{
  SizesBelow, IsValid, IsSame, entry_of, busy, all_empty, Skipped, skip_empty_lem,
}

module _ {K V : Type 0} {T : DictType K V} (L : KeyLaws T) (d : Dict K V) (v : IsValid T d) (i : ℕ)
    (at_i : d.rehashidx ≡ some i) (some_left : d.ht0.used ≢ 0) where
  rehash_in_range : i < d.ht0.size
  rehash_in_range = elim (dec_lt i d.ht0.size) [
    | yes lt ↦ lt
    | no ge ↦ absurd (
        some_left
          (v.ok0.count ∙ all_empty d.ht0.table i (omega (arith, v.ok0.len)) (busy d v i at_i).2))
  ]

  -- The state after bucket `n` has moved with the result `r` of the walk along it.
  abbrev after : ℕ → ℕ × Dictht K V → Dict K V
  after n r = record d { ht0 = with_bucket d.ht0 n [] r.0; ht1 = r.1; rehashidx = some (n + 1) }

  module _ (n : ℕ) (s : Skipped d.ht0.table i n) where
    chain_fits : length (bucket d.ht0 n) ≤ d.ht0.used
    chain_fits = omega (arith, total-set d.ht0.table n [] s.inside, v.ok0.count)

    moved :
        Moved L (bucket d.ht0 n) d.ht0.used d.ht1 (move_chain T (bucket d.ht0 n) d.ht0.used d.ht1)
    moved =
        move_chain_lem L d.ht0.sizemask n (bucket d.ht0 n) d.ht0.used d.ht1 (v.ok0.chains n)
          chain_fits v.ok1 (busy d v i at_i).1
          λ k there.
            v.apart k
              (rw (search_slot L d.ht0.sizemask n k (bucket d.ht0 n) (v.ok0.chains n) there) there)

    abbrev result : Dict K V
    result = after n (move_chain T (bucket d.ht0 n) d.ht0.used d.ht1)

    finds0 :
        (k : K) → find_ht T result.ht0 k ≡ (if slot T d.ht0 k == n then none else find_ht T d.ht0 k)
    unfolding search
    finds0 k = find_ht-with_bucket T d.ht0 n [] result.ht0.used k s.inside

    result-entries : (k : K) → entry_of T result k ≡ entry_of T d k
    result-entries k =
        rw (finds0 k, moved.finds k)
          (elim (Bool-cases (slot T d.ht0 k == n)) [
            | inl e ↦ let e' : slot T d.ht0 k ≡ n = ground arith in rw (e, e') refl
            | inr e ↦ rw (e, search_other T L d.ht0 n k v.ok0 (ground arith)) refl
          ])

    result-apart : (k : K) → is_some (find_ht T result.ht0 k) ≡ true → find_ht T result.ht1 k ≡ none
    result-apart k there = elim (Bool-cases (slot T d.ht0 k == n)) [
      | inl e ↦ ground (arith, finds0 k)
      | inr e ↦
          moved.finds k
          ∙ rw (search_other T L d.ht0 n k v.ok0 (ground arith))
              (v.apart k (ground (arith, finds0 k)))
    ]

    emptied : (j : ℕ) → j < n + 1 → bucket result.ht0 j ≡ []
    emptied j lt = elim (dec_lt j n) [
      | yes below ↦ rw (get_or-set_ne d.ht0.table n j [] [] (omega arith)) (s.before j below)
      | no above ↦
          let same : j ≡ n = omega arith in
          rw (same, get_or-set_self d.ht0.table n [] [] s.inside) refl
    ]

    result-IsValid : IsValid T result
    result-IsValid = record {
      ok0 =
          with_bucket-TableOk T d.ht0 n [] result.ht0.used v.ok0
            (omega (arith, s.inside, v.ok0.len)) tt (omega (arith, moved.left));
      ok1 = moved.ok;
      apart = result-apart;
      phase = ((busy d v i at_i).0, rw moved.size (busy d v i at_i).1, emptied);
    }

    bucket_runs :
        skip_empty (d.ht0.size - i) d.ht0.table i ≡ some n
        → rehash_bucket T d i ≡ some (result, n + 1)
    unfolding rehash_bucket
    bucket_runs e = rw (lt→ltb i d.ht0.size rehash_in_range, e) refl

  -- What one round of dictRehash achieves.
  pub record Round (d' : Dict K V) (next : ℕ) : Type 0 where
    pub runs : rehash_bucket T d i ≡ some (d', next)
    pub ok : IsValid T d'
    pub same : IsSame T d d'
    pub at_next : d'.rehashidx ≡ some next
    pub fewer : d'.ht0.used < d.ht0.used
    pub sizes : (b : ℕ) → SizesBelow b d → SizesBelow b d'

  pub rehash_bucket_lem : (d' : Dict K V) × (next : ℕ) × Round d' next
  rehash_bucket_lem =
      let (n, e, s) =
        skip_empty_lem (d.ht0.size - i) d.ht0.table i (omega (arith, v.ok0.len, rehash_in_range))
          (λ z. some_left (v.ok0.count ∙ z)) (busy d v i at_i).2 in
      (
        result n s,
        n + 1,
        record {
          runs = bucket_runs n s e;
          ok = result-IsValid n s;
          same = record {
            entries = result-entries n s;
            count = omega (arith, (moved n s).left, (moved n s).taken);
            iterators = refl;
          };
          at_next = refl;
          fewer = omega (arith, (moved n s).left, length_pos (bucket d.ht0 n) s.there);
          sizes = λ b (lo, hi). (lo, rw (moved n s).size hi);
        },
      )
