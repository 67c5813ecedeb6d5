-- ===== src/Dict/Iterator.antt =====
-- Iterators and random picks of redis-2.6.12/src/dict.c.
use Prim.Native.Nat.{bit_and}
use commit_redis.Prelude.{
  ℕ, zero, suc, ◌+◌, ◌-◌, ◌%◌, ◌^◌, Bool, true, false, ◌&&◌, Option, none, some, List, [], ◌∷◌, ltb,
  ◌==◌, not, if◌then◌else◌, get_elem?, length, ◌>>=◌,
}
use commit_redis.Dict.Defs.{DictType, Dict, Chain, bucket, dict_size, dict_is_rehashing, is_some}
use commit_redis.Dict.Ops.{step_if_rehashing}

-- `index` is -1 as `none`; `next_entry` is `none` where `entry` is NULL, else the chain that
-- `nextEntry` points to.
pub record DictIterator (K V : Type 0) : Type 0 where
  pub in_second : Bool
  pub index : Option ℕ
  pub safe : Bool
  pub next_entry : Option (Chain K V)

module _ {K V : Type 0} where
  -- dictGetIterator and dictGetSafeIterator
  abbrev pub dict_get_iterator : Bool → DictIterator K V
  dict_get_iterator safe = record {
    in_second = false;
    index = none;
    safe = safe;
    next_entry = none;
  }

  abbrev pub is_fresh : DictIterator K V → Bool
  is_fresh it = not (is_some it.index) && not it.in_second

  abbrev pub next_index : DictIterator K V → ℕ
  next_index it = elim it.index [ none ↦ 0 | some i ↦ i + 1 ]

  -- The first call of a safe iterator stops the rehashing steps.
  abbrev pub count_safe : Dict K V → DictIterator K V → Dict K V
  count_safe d it = if it.safe && is_fresh it then record d { iterators = d.iterators + 1 } else d

  -- The move to the next bucket; the second component is `none` at the end.
  unfoldable pub next_bucket : Dict K V → DictIterator K V → DictIterator K V × Option (Chain K V)
  next_bucket d it =
      let i = next_index it in
      let ht = if it.in_second then d.ht1 else d.ht0 in
      if ltb i ht.size
      then (record it { index = some i }, some (bucket ht i))
      else if dict_is_rehashing d && not it.in_second
      then (record it { in_second = true; index = some 0 }, some (bucket d.ht1 0))
      else (record it { index = some i }, none)

  -- An entry that is reached: it is returned, with its successor kept; NULL goes round again.
  abbrev pub reach :
      Option (Option (K × V) × Dict K V × DictIterator K V)
      → Dict K V
      → DictIterator K V
      → Chain K V
      → Option (Option (K × V) × Dict K V × DictIterator K V)
  reach again d it [] = again
  reach again d it (e ∷ rest) = some (some e, d, record it { next_entry = some rest })

  -- The loop of dictNext; `none` is a loop that goes on.
  unfoldable pub next_loop :
      ℕ → Dict K V → DictIterator K V → Option (Option (K × V) × Dict K V × DictIterator K V)
  next_loop zero d it = none
  next_loop (suc fuel) d it = elim it.next_entry [
    | some chain ↦ reach (next_loop fuel d (record it { next_entry = none })) d it chain
    | none ↦
        let d' = count_safe d it in
        let (it', entry) = next_bucket d it in
        elim entry [
          | none ↦ some (none, d', it')
          | some chain ↦ reach (next_loop fuel d' it') d' it' chain
        ]
  ]

  -- dictNext: one round for each bucket, for the end of a chain and for the end of the tables.
  unfoldable pub dict_next :
      Dict K V → DictIterator K V → Option (Option (K × V) × Dict K V × DictIterator K V)
  dict_next d it = next_loop (d.ht0.size + d.ht1.size + 2) d it

  -- dictReleaseIterator
  abbrev pub dict_release_iterator : Dict K V → DictIterator K V → Dict K V
  dict_release_iterator d it =
      if it.safe && not (is_fresh it) then record d { iterators = d.iterators - 1 } else d

  -- The loops that draw a bucket until one is not empty, over the answers of random(); `none` where
  -- the answers run out.
  unfoldable pub draw_bucket : (ℕ → Chain K V) → List ℕ → Option (Chain K V × List ℕ)
  draw_bucket at [] = none
  draw_bucket at (r ∷ draws) = reach_bucket (at r) (draw_bucket at draws)
    where
      reach_bucket : Chain K V → Option (Chain K V × List ℕ) → Option (Chain K V × List ℕ)
      reach_bucket [] again = again
      reach_bucket (e ∷ rest) again = some (e ∷ rest, draws)

  -- The bucket of a draw: of both tables while rehashing, else of the first. `h` has 32 bits.
  abbrev pub drawn : Dict K V → ℕ → Chain K V
  drawn d r =
      let h = r % (d.ht0.size + d.ht1.size) % 2 ^ 32 in
      if dict_is_rehashing d
      then (if ltb h d.ht0.size then bucket d.ht0 h else bucket d.ht1 (h - d.ht0.size))
      else bucket d.ht0 (bit_and r d.ht0.sizemask % 2 ^ 32)

module _ {K V : Type 0} (T : DictType K V) where
  -- dictGetRandomKey over the answers of random().
  unfoldable pub dict_get_random_key : Dict K V → List ℕ → Option (Dict K V × Option (K × V))
  dict_get_random_key d draws = if dict_size d == 0 then some (d, none) else (do
    d' ← step_if_rehashing T d
    (chain, rest) ← draw_bucket (drawn d') draws
    elim rest [
      | [] ↦ none
      | r ∷ _ ↦ elim (get_elem? chain (r % length chain)) [
        | none ↦ none
        | some e ↦ some (d', some e)
      ]
    ])
