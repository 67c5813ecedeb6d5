-- ===== src/Dict/Rehash.antt =====
-- The incremental rehash keeps the invariant and the entries, and comes to an end.
use commit_redis.Prelude.{
  ◌^◌, ℕ, zero, suc, ◌<◌, ◌≡◌, refl, sym, ◌∙◌, inl, inr, Bool, true, false, Option, none, some,
  List, [], ◌∷◌, arith, get_or, ◌==◌, Bool-cases, Option-cases,
}
use commit_redis.Dict.Defs.{DictType, Dictht, Dict, slot, search, dict_reset, dict_is_rehashing}
use commit_redis.Dict.Ops.{
  rehash_loop, dict_rehash, dict_rehash_step, step_if_rehashing, finish_rehash,
}
use commit_redis.Dict.Chain.{KeyLaws}
use commit_redis.Dict.Table.{dict_reset-TableOk, find_ht, TableOk, total}
use commit_redis.Dict.Insert.{or_else}
use commit_redis.Dict.Valid.{
  IsSame-refl, IsSame-trans, SizesBelow, find_ht-eq-none, IsValid, IsSame, busy,
}
use commit_redis.Dict.Round.{rehash_bucket_lem}

total-zero_bucket : {E : Type 0} (t : List (List E)) (j : ℕ) → total t ≡ 0 → get_or t j [] ≡ []
total-zero_bucket [] j e = refl
total-zero_bucket ([] ∷ t) zero e = refl
total-zero_bucket ((x ∷ c) ∷ t) zero e = absurd (omega arith)
total-zero_bucket (c ∷ t) (suc j) e = total-zero_bucket t j (omega arith)

or_else-none : {A : Type 0} (o : Option A) → or_else o none ≡ o
or_else-none none = refl
or_else-none (some a) = refl

pub find_ht_empty :
    {K V : Type 0} {T : DictType K V} (ht : Dictht K V) (k : K)
    → TableOk T ht
    → ht.used ≡ 0
    → find_ht T ht k ≡ none
unfolding search
find_ht_empty {T} ht k ok e = rw (total-zero_bucket ht.table (slot T ht k) (sym ok.count ∙ e)) refl

-- A run of dictRehash: it ends, keeps the entries, and says whether some are left to move.
pub record Rehashed {K V : Type 0} (T : DictType K V) (d : Dict K V) (n : ℕ)
    (run : Option (Bool × Dict K V)) : Type 0 where
  pub more : Bool
  pub after : Dict K V
  pub runs : run ≡ some (more, after)
  pub ok : IsValid T after
  pub same : IsSame T d after
  pub done : more ≡ false → after.rehashidx ≡ none
  pub enough : d.ht0.used < n → more ≡ false
  pub sizes : (b : ℕ) → SizesBelow b d → SizesBelow b after

module _ {K V : Type 0} {T : DictType K V} (L : KeyLaws T) where
  finish_rehash_lem :
      (d : Dict K V) (i : ℕ)
      → IsValid T d
      → d.rehashidx ≡ some i
      → d.ht0.used ≡ 0
      → IsValid T (finish_rehash d) × IsSame T d (finish_rehash d)
  finish_rehash_lem d i v e z = (
    record {
      ok0 = v.ok1;
      ok1 = dict_reset-TableOk T;
      apart = λ k there. find_ht-eq-none T dict_reset k refl;
      phase = refl;
    },
    record {
      entries = λ k.
          rw (find_ht_empty d.ht0 k v.ok0 z, find_ht-eq-none T dict_reset k refl) (or_else-none _);
      count = omega arith;
      iterators = refl;
    },
  )

  rehash_loop_lem :
      (n : ℕ) (d : Dict K V) (i : ℕ)
      → IsValid T d
      → d.rehashidx ≡ some i
      → Rehashed T d n (rehash_loop T n d i)
  unfolding rehash_loop
  rehash_loop_lem zero d i v e = record {
    more = true;
    after = d;
    runs = refl;
    ok = v;
    same = IsSame-refl d;
    done = λ h. cc;
    enough = λ h. absurd (omega arith);
    sizes = λ b h. h;
  }
  rehash_loop_lem (suc n) d i v e = elim (Bool-cases (d.ht0.used == 0)) [
    | inl z ↦
        let z' : d.ht0.used ≡ 0 = ground arith in
        let (ok, same) = finish_rehash_lem d i v e z' in
        record {
          more = false;
          after = finish_rehash d;
          runs = rw (z, rehash_loop) refl;
          ok = ok;
          same = same;
          done = λ h. refl;
          enough = λ h. refl;
          sizes = λ b h. (h.1, omega (arith, h.1));
        }
    | inr nz ↦
        let (d', next, r) = rehash_bucket_lem L d v i e (ground arith) in
        let rest = rehash_loop_lem n d' next r.ok r.at_next in
        record {
          more = rest.more;
          after = rest.after;
          runs = rw (nz, rehash_loop) (rw r.runs rest.runs);
          ok = rest.ok;
          same = IsSame-trans r.same rest.same;
          done = rest.done;
          enough = λ h. rest.enough (omega (arith, r.fewer));
          sizes = λ b h. rest.sizes b (r.sizes b h);
        }
  ]

  -- A run of dictRehash from a valid state.
  pub dict_rehash_lem : (d : Dict K V) (n : ℕ) → IsValid T d → Rehashed T d n (dict_rehash T d n)
  unfolding dict_rehash
  dict_rehash_lem d n v = elim (Option-cases d.rehashidx) [
    | inl e ↦ record {
      more = false;
      after = d;
      runs = rw e refl;
      ok = v;
      same = IsSame-refl d;
      done = λ h. e;
      enough = λ h. refl;
      sizes = λ b h. h;
    }
    | inr (i, e) ↦
        let r = rehash_loop_lem n d i v e in
        record {
          more = r.more;
          after = r.after;
          runs = rw (e, dict_rehash) r.runs;
          ok = r.ok;
          same = r.same;
          done = r.done;
          enough = r.enough;
          sizes = r.sizes;
        }
  ]

  -- The step that the other operations begin with.
  pub record Stepped (d d' : Dict K V) : Type 0 where
    pub runs : step_if_rehashing T d ≡ some d'
    pub ok : IsValid T d'
    pub same : IsSame T d d'
    pub sizes : (b : ℕ) → SizesBelow b d → SizesBelow b d'

  pub step_if_rehashing_lem : (d : Dict K V) → IsValid T d → (d' : Dict K V) × Stepped d d'
  unfolding step_if_rehashing dict_rehash_step
  step_if_rehashing_lem d v =
      let r = dict_rehash_lem d 1 v in
      let stay = λ (e : step_if_rehashing T d ≡ some d).
        let s : Stepped d d = record { runs = e; ok = v; same = IsSame-refl d; sizes = λ b h. h } in
        s in
      elim (Bool-cases (dict_is_rehashing d)) [
        | inl busy ↦ elim (Bool-cases (d.iterators == 0)) [
          | inl free ↦ (
            r.after,
            record {
              runs = rw (busy, free, r.runs) refl;
              ok = r.ok;
              same = r.same;
              sizes = r.sizes;
            },
          )
          | inr held ↦ (d, stay (rw (busy, held) refl))
        ]
        | inr calm ↦ (d, stay (rw calm refl))
      ]

  -- dictRehash from a valid state, with an old table of fewer than 2 ^ 31 buckets, so that the int
  -- rehashidx does not wrap, runs with no fault for any number of rounds, and keeps the
  -- invariant, every entry, the number of entries and the number of iterators.
  pub dict_rehash_keeps :
      (d : Dict K V) (n : ℕ)
      → IsValid T d
      → d.ht0.size < 2 ^ 31
      → (more : Bool) × (d' : Dict K V) × (dict_rehash T d n ≡ some (more, d'))
        × IsValid T d'
        × IsSame T d d'
  dict_rehash_keeps d n v few =
      let r = dict_rehash_lem d n v in (r.more, r.after, r.runs, r.ok, r.same)

  -- With an old table of fewer than 2 ^ 31 buckets, more rounds than it has entries bring the rehash to
  -- its end: dictRehash answers 0, no rehash is in progress any more, and every entry is where it is
  -- found.
  pub dict_rehash_finishes :
      (d : Dict K V) (n : ℕ)
      → IsValid T d
      → d.ht0.size < 2 ^ 31
      → d.ht0.used < n
      → (d' : Dict K V) × (dict_rehash T d n ≡ some (false, d'))
        × (d'.rehashidx ≡ none)
        × IsValid T d'
        × IsSame T d d'
  dict_rehash_finishes d n v few h =
      let r = dict_rehash_lem d n v in
      let last : r.more ≡ false = r.enough h in
      (r.after, r.runs ∙ rw last refl, r.done last, r.ok, r.same)
