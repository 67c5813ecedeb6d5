-- ===== src/Dict/Defs.antt =====
-- The structures of redis-2.6.12/src/dict.h, and the operations of dict.c on one table.
use Prim.Native.Nat.{bit_and}
use commit_redis.Prelude.{
  ℕ, zero, suc, ◌+◌, ◌-◌, ◌*◌, ◌%◌, ◌^◌, Bool, true, false, Option, none, some, List, [], ◌∷◌, ltb,
  leb, ◌==◌, ◌||◌, if◌then◌else◌, get_or, get_elem?, set, replicate, is_nil, ◌>>=◌,
}

-- Keys and values are `void *`. `same_pointer` is what `==` answers on two key pointers. The
-- destructors of a `dictType` release memory outside the table and have no field here.
pub record DictType (K V : Type 0) : Type 0 where
  pub hash_function : K → ℕ
  pub key_dup : Option (K → K)
  pub val_dup : Option (V → V)
  pub key_compare : Option (K → K → Bool)
  pub same_pointer : K → K → Bool

abbrev pub Chain : Type 0 → Type 0 → Type 0
Chain K V = List (K × V)

pub record Dictht (K V : Type 0) : Type 0 where
  pub table : List (Chain K V)
  pub size : ℕ
  pub sizemask : ℕ
  pub used : ℕ

-- `rehashidx` is an int, with -1 as `none`. It is at most the size of the first table, and what is said
-- of more than one step of a rehash asks for fewer than 2 ^ 31 buckets there, so that it does not wrap.
pub record Dict (K V : Type 0) : Type 0 where
  pub ht0 : Dictht K V
  pub ht1 : Dictht K V
  pub rehashidx : Option ℕ
  pub iterators : ℕ

pub data Status : Type 0 where
  dict_ok dict_err : Status

abbrev pub is_some : {A : Type 0} → Option A → Bool
is_some none = false
is_some (some _) = true

-- `n--` on an `unsigned long`. The counters go up with each entry, and entries take memory, so
-- `n++` never wraps.
abbrev pub pred64 : ℕ → ℕ
pred64 n = if n == 0 then 2 ^ 64 - 1 else n - 1

module _ {K V : Type 0} where
  abbrev pub dict_reset : Dictht K V
  dict_reset = record { table = []; size = 0; sizemask = 0; used = 0 }

  abbrev pub dict_create : Dict K V
  dict_create = record { ht0 = dict_reset; ht1 = dict_reset; rehashidx = none; iterators = 0 }

  abbrev pub dict_is_rehashing : Dict K V → Bool
  dict_is_rehashing d = is_some d.rehashidx

  abbrev pub dict_size : Dict K V → ℕ
  dict_size d = d.ht0.used + d.ht1.used

  -- `table[i]`
  abbrev pub bucket : Dictht K V → ℕ → Chain K V
  bucket ht i = get_or ht.table i []

  -- A new entry at the head of the chain of bucket `i`.
  unfoldable pub insert_at : ℕ → K × V → Dictht K V → Dictht K V
  insert_at i e ht = record ht { table = set ht.table i (e ∷ bucket ht i); used = ht.used + 1 }

module _ {K V : Type 0} (T : DictType K V) where
  -- dictCompareKeys, dictSetKey and dictSetVal
  abbrev pub compare_keys : K → K → Bool
  compare_keys a b = elim T.key_compare [ none ↦ T.same_pointer a b | some cmp ↦ cmp a b ]

  abbrev pub dup_key : K → K
  dup_key k = elim T.key_dup [ none ↦ k | some dup ↦ dup k ]

  abbrev pub dup_val : V → V
  dup_val v = elim T.val_dup [ none ↦ v | some dup ↦ dup v ]

  -- `h & sizemask`
  abbrev pub slot : Dictht K V → K → ℕ
  slot ht k = bit_and (T.hash_function k) ht.sizemask

  -- The walk along a chain for a key.
  unfoldable pub search : K → Chain K V → Option (K × V)
  search key [] = none
  search key ((k, v) ∷ next) = if compare_keys key k then some (k, v) else search key next

  -- The walk that takes the entry out; `none` where there is none.
  unfoldable pub unlink : K → Chain K V → Option (Chain K V)
  unlink key [] = none
  unlink key ((k, v) ∷ next) =
      if compare_keys key k
      then some next
      else elim (unlink key next) [ none ↦ none | some rest ↦ some ((k, v) ∷ rest) ]

  -- `entry->v.val = v` on the entry that the walk finds.
  unfoldable pub write_val : K → V → Chain K V → Chain K V
  write_val key w [] = []
  write_val key w ((k, v) ∷ next) =
      if compare_keys key k then (k, w) ∷ next else (k, v) ∷ write_val key w next

  -- The loop of dictRehash over one chain: `ht[0].used` falls while `ht[1]` takes the entries.
  unfoldable pub move_chain : Chain K V → ℕ → Dictht K V → ℕ × Dictht K V
  move_chain [] used ht1 = (used, ht1)
  move_chain ((k, v) ∷ next) used ht1 =
      move_chain next (pred64 used) (insert_at (slot ht1 k) (k, v) ht1)

-- `while (table[rehashidx] == NULL) rehashidx++`; a read past the end of the table is a fault.
unfoldable pub skip_empty : {E : Type 0} → ℕ → List (List E) → ℕ → Option ℕ
skip_empty zero t i = none
skip_empty (suc fuel) t i = elim (get_elem? t i) [
  | none ↦ none
  | some [] ↦ skip_empty fuel t (i + 1)
  | some (e ∷ r) ↦ some i
]

-- The loop of _dictNextPower; the product wraps as an `unsigned long` does.
unfoldable pub next_power_loop : ℕ → ℕ → ℕ → Option ℕ
next_power_loop zero i size = none
next_power_loop (suc fuel) i size = elim (leb size i) [
  | true ↦ some i
  | false ↦ next_power_loop fuel (i * 2 % 2 ^ 64) size
]

abbrev pub long_max : ℕ
long_max = 2 ^ 63 - 1

abbrev pub dict_ht_initial_size : ℕ
dict_ht_initial_size = 4

unfoldable pub dict_next_power : ℕ → Option ℕ
dict_next_power size =
    if leb long_max size then some long_max else next_power_loop 64 dict_ht_initial_size size

-- A table of empty buckets.
abbrev pub fresh_table : {K V : Type 0} → ℕ → Dictht K V
fresh_table n = record { table = replicate n []; size = n; sizemask = n - 1; used = 0 }

-- dictExpand. zcalloc stops the server when memory runs out, so it always returns.
unfoldable pub dict_expand : {K V : Type 0} → ℕ → Dict K V → Option (Status × Dict K V)
dict_expand size d = do
  realsize ← dict_next_power size
  if dict_is_rehashing d || ltb size d.ht0.used
      then some (dict_err, d)
      else let n = fresh_table realsize in
        if is_nil d.ht0.table
        then some (dict_ok, record d { ht0 = n })
        else some (dict_ok, record d { ht1 = n; rehashidx = some 0 })
