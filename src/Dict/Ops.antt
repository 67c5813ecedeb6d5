-- ===== src/Dict/Ops.antt =====
-- The operations of redis-2.6.12/src/dict.c. `none` is a failed assertion, a write to a bucket whose
-- index is no int, or a loop that does not end; a search past the end of a table finds an empty chain; `can_resize` is the global `dict_can_resize`.
use commit_redis.Prelude.{
  ℕ, zero, suc, ◌+◌, ◌-◌, ◌*◌, ◌/◌, ◌%◌, ◌^◌, Bool, true, false, Option, none, some, [], ltb, leb,
  ◌==◌, ◌||◌, ◌&&◌, if◌then◌else◌, set, ◌>>=◌,
}
use commit_redis.Dict.Defs.{
  DictType, Dictht, Dict, Status, dict_ok, dict_err, is_some, pred64, dict_reset, dict_is_rehashing,
  bucket, dup_key, dup_val, slot, search, unlink, write_val, insert_at, move_chain, skip_empty,
  dict_ht_initial_size, dict_expand,
}

-- The global `dict_force_resize_ratio`.
abbrev pub dict_force_resize_ratio : ℕ
dict_force_resize_ratio = 5

-- An unsigned index as an int, of which -1 is `none`.
abbrev pub int_index : ℕ → Option ℕ
int_index i = if i == 2 ^ 32 - 1 then none else some i

module _ {K V : Type 0} where
  -- `*d = ht[1]`, at the end of a rehash.
  abbrev pub finish_rehash : Dict K V → Dict K V
  finish_rehash d = record d { ht0 = d.ht1; ht1 = dict_reset; rehashidx = none }

  unfoldable pub expand_if_needed : Bool → Dict K V → Option (Status × Dict K V)
  expand_if_needed can_resize d =
      if dict_is_rehashing d
      then some (dict_ok, d)
      else if d.ht0.size == 0
      then dict_expand dict_ht_initial_size d
      else if leb d.ht0.size d.ht0.used
          && (can_resize || ltb dict_force_resize_ratio (d.ht0.used / d.ht0.size))
      then dict_expand ((if ltb d.ht0.used d.ht0.size then d.ht0.size else d.ht0.used) * 2 % 2 ^ 64)
          d
      else some (dict_ok, d)

  -- `int minimal = ht[0].used`, which keeps the low 32 bits and is negative from 2 ^ 31 on.
  unfoldable pub dict_resize : Bool → Dict K V → Option (Status × Dict K V)
  dict_resize can_resize d =
      if can_resize && not_rehashing
      then dict_expand
          (if leb (2 ^ 31) minimal || ltb minimal dict_ht_initial_size
            then dict_ht_initial_size
            else minimal)
          d
      else some (dict_err, d)
    where
      minimal : ℕ
      minimal = d.ht0.used % 2 ^ 32

      not_rehashing : Bool
      not_rehashing = if dict_is_rehashing d then false else true

  unfoldable pub dict_empty : Dict K V → Dict K V
  dict_empty d = record { ht0 = dict_reset; ht1 = dict_reset; rehashidx = none; iterators = 0 }

module _ {K V : Type 0} (T : DictType K V) where
  -- One round of the loop of dictRehash: the next bucket that is not empty moves to `ht[1]`.
  unfoldable pub rehash_bucket : Dict K V → ℕ → Option (Dict K V × ℕ)
  rehash_bucket d rehashidx =
      if ltb rehashidx d.ht0.size
      then (do
        i ← skip_empty (d.ht0.size - rehashidx) d.ht0.table rehashidx
        let (used, ht1) = move_chain T (bucket d.ht0 i) d.ht0.used d.ht1
        let ht0 = record d.ht0 { table = set d.ht0.table i []; used = used }
        some (record d { ht0 = ht0; ht1 = ht1; rehashidx = some (i + 1) }, i + 1))
      else none

  unfoldable pub rehash_loop : ℕ → Dict K V → ℕ → Option (Bool × Dict K V)
  rehash_loop zero d rehashidx = some (true, d)
  rehash_loop (suc n) d rehashidx = elim (d.ht0.used == 0) [
    | true ↦ some (false, finish_rehash d)
    | false ↦ (do (d', next) ← rehash_bucket d rehashidx; rehash_loop n d' next)
  ]

  unfoldable pub dict_rehash : Dict K V → ℕ → Option (Bool × Dict K V)
  dict_rehash d n = elim d.rehashidx [ none ↦ some (false, d) | some i ↦ rehash_loop n d i ]

  unfoldable pub dict_rehash_step : Dict K V → Option (Dict K V)
  dict_rehash_step d =
      if d.iterators == 0 then (do (more, d') ← dict_rehash d 1; some d') else some d

  -- `if (dictIsRehashing(d)) _dictRehashStep(d);`
  unfoldable pub step_if_rehashing : Dict K V → Option (Dict K V)
  step_if_rehashing d = if dict_is_rehashing d then dict_rehash_step d else some d

  -- The loop of dictFind over the two tables.
  unfoldable pub find_entry : Dict K V → K → Option (K × V)
  find_entry d key = elim (search T key (bucket d.ht0 (slot T d.ht0 key))) [
    | some e ↦ some e
    | none ↦ if dict_is_rehashing d then search T key (bucket d.ht1 (slot T d.ht1 key)) else none
  ]

  unfoldable pub dict_find : Dict K V → K → Option (Dict K V × Option (K × V))
  dict_find d key =
      if d.ht0.size == 0
      then some (d, none)
      else do d' ← step_if_rehashing d; some (d', find_entry d' key)

  -- The index is one of the table that takes new entries.
  unfoldable pub dict_key_index : Bool → Dict K V → K → Option (Dict K V × Option ℕ)
  dict_key_index can_resize d key = do
    (status, d') ← expand_if_needed can_resize d
    some (
      d',
      elim status [
        | dict_err ↦ none
        | dict_ok ↦ elim (find_entry d' key) [
          | some e ↦ none
          | none ↦ int_index (slot T (if dict_is_rehashing d' then d'.ht1 else d'.ht0) key)
        ]
      ],
    )

  -- `v` is what the caller stores in the entry that it is handed; `false` is the NULL result. An index
  -- from 2 ^ 31 on is negative as an int, and a write there is outside the table.
  unfoldable pub dict_add_raw : Bool → Dict K V → K → V → Option (Dict K V × Bool)
  dict_add_raw can_resize d key v = do
    d₁ ← step_if_rehashing d
    (d₂, index) ← dict_key_index can_resize d₁ key
    elim index [
      | none ↦ some (d₂, false)
      | some i ↦
          let added =
            if dict_is_rehashing d₂
            then (record d₂ { ht1 = insert_at i (dup_key T key, v) d₂.ht1 }, true)
            else (record d₂ { ht0 = insert_at i (dup_key T key, v) d₂.ht0 }, true) in
          if ltb i (2 ^ 31) then some added else none
    ]

  unfoldable pub dict_add : Bool → Dict K V → K → V → Option (Dict K V × Status)
  dict_add can_resize d key val = do
    (d', added) ← dict_add_raw can_resize d key (dup_val T val)
    some (d', if added then dict_ok else dict_err)

  -- `dictSetVal(d, entry, val)` on the entry that dictFind returns, in the table where it is.
  unfoldable pub set_entry_val : Dict K V → K → V → Dict K V
  set_entry_val d key val =
      let i = slot T d.ht0 key in
      let j = slot T d.ht1 key in
      if is_some (search T key (bucket d.ht0 i))
      then record d {
        ht0 = record d.ht0 { table = set d.ht0.table i (write_val T key val (bucket d.ht0 i)) };
      }
      else record d {
        ht1 = record d.ht1 { table = set d.ht1.table j (write_val T key val (bucket d.ht1 j)) };
      }

  -- The result is 1 for a key that was not there. A NULL entry would be read: a fault.
  unfoldable pub dict_replace : Bool → Dict K V → K → V → Option (Dict K V × Bool)
  dict_replace can_resize d key val = do
    (d₁, status) ← dict_add can_resize d key val
    elim status [
      | dict_ok ↦ some (d₁, true)
      | dict_err ↦ (do
        (d₂, entry) ← dict_find d₁ key
        elim entry [ none ↦ none | some e ↦ some (set_entry_val d₂ key (dup_val T val), false) ])
    ]

  -- The body of the loop of dictGenericDelete on one table; `none` where the key is not in it.
  unfoldable pub delete_from : Dictht K V → K → Option (Dictht K V)
  delete_from ht key =
      let i = slot T ht key in
      elim (unlink T key (bucket ht i)) [
        | none ↦ none
        | some rest ↦ some (record ht { table = set ht.table i rest; used = pred64 ht.used })
      ]

  unfoldable pub delete_entry : Dict K V → K → Dict K V × Status
  delete_entry d key = elim (delete_from d.ht0 key) [
    | some ht ↦ (record d { ht0 = ht }, dict_ok)
    | none ↦
        if dict_is_rehashing d
        then elim (delete_from d.ht1 key) [
          | some ht ↦ (record d { ht1 = ht }, dict_ok)
          | none ↦ (d, dict_err)
        ]
        else (d, dict_err)
  ]

  unfoldable pub dict_generic_delete : Dict K V → K → Option (Dict K V × Status)
  dict_generic_delete d key =
      if d.ht0.size == 0
      then some (d, dict_err)
      else do d' ← step_if_rehashing d; some (delete_entry d' key)

  unfoldable pub dict_fetch_value : Dict K V → K → Option (Dict K V × Option V)
  dict_fetch_value d key = do
    (d', entry) ← dict_find d key
    some (d', elim entry [ none ↦ none | some (k, v) ↦ some v ])
