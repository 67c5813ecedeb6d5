-- ===== src/Intset/Defs.antt =====
-- The structure and the functions of redis-2.6.12/src/intset.c over bytes in memory.
use commit_redis.Prelude.{
  ℕ, zero, suc, ◌+◌, ◌-◌, ◌*◌, ◌/◌, ◌%◌, ◌^◌, Bool, true, false, Option, none, some, ltb, leb, ◌==◌,
  ◌||◌, if◌then◌else◌,
}
use commit_redis.Prelude.Int.{ℤ, pos, negsuc, ltb_ℤ}
use commit_redis.Memory.{Mem, load, store, memmove}
use commit_redis.Memory.Signed.{to_bits, of_bits}

-- `alloc` is the size of the memory behind `contents`, which zmalloc and zrealloc keep.
pub record Intset : Type 0 where
  pub encoding : ℕ
  pub length : ℕ
  pub contents : Mem
  pub alloc : ℕ

abbrev pub enc_int16 : ℕ
enc_int16 = 2

abbrev pub enc_int32 : ℕ
enc_int32 = 4

abbrev pub enc_int64 : ℕ
enc_int64 = 8

-- _intsetValueEncoding
unfoldable pub value_encoding : ℤ → ℕ
value_encoding v =
    if ltb_ℤ v (negsuc (2 ^ 31 - 1)) || ltb_ℤ (pos (2 ^ 31 - 1)) v
    then enc_int64
    else if ltb_ℤ v (negsuc (2 ^ 15 - 1)) || ltb_ℤ (pos (2 ^ 15 - 1)) v
    then enc_int32
    else enc_int16

-- The size of the element type that the functions choose for an encoding.
abbrev pub width : ℕ → ℕ
width enc = if enc == enc_int64 then 8 else if enc == enc_int32 then 4 else 2

-- _intsetGetEncoded
unfoldable pub get_encoded : Mem → ℕ → ℕ → ℤ
get_encoded m at enc = of_bits (width enc) (load (width enc) m (at * width enc))

-- _intsetGet
abbrev pub intset_get_at : Intset → ℕ → ℤ
intset_get_at is at = get_encoded is.contents at is.encoding

-- _intsetSet
unfoldable pub set_encoded : Mem → ℕ → ℕ → ℤ → Mem
set_encoded m at enc value = store (width enc) m (at * width enc) (to_bits (width enc) value)

abbrev pub intset_set : Intset → ℕ → ℤ → Intset
intset_set is at value = record is { contents = set_encoded is.contents at is.encoding value }

abbrev pub intset_new : Intset
intset_new = record { encoding = enc_int16; length = 0; contents = λ x. 0; alloc = 0 }

-- The size is a `uint32_t`. zrealloc keeps the bytes that were there.
unfoldable pub intset_resize : Intset → ℕ → Intset
intset_resize is len = record is { alloc = len * is.encoding % 2 ^ 32 }

-- The binary search; `hi` is `max + 1`, so `max >= min` is `min < hi`. Found positions are `inl`.
pub data Found : Type 0 where
  found : ℕ → Found
  missing : ℕ → Found

unfoldable pub search_loop : ℕ → Intset → ℤ → ℕ → ℕ → Option Found
search_loop zero is value lo hi = none
search_loop (suc fuel) is value lo hi =
    let mid = (lo + (hi - 1)) / 2 in
    let cur = intset_get_at is mid in
    let right = search_loop fuel is value (mid + 1) hi in
    let left = search_loop fuel is value lo mid in
    if ltb lo hi
    then (if ltb_ℤ cur value then right else if ltb_ℤ value cur then left else some (found mid))
    else some (missing lo)

-- intsetSearch; `none` is a loop that does not end.
unfoldable pub intset_search : Intset → ℤ → Option Found
intset_search is value =
    if is.length == 0
    then some (missing 0)
    else if ltb_ℤ (intset_get_at is (is.length - 1)) value
    then some (missing is.length)
    else if ltb_ℤ value (intset_get_at is 0)
    then some (missing 0)
    else search_loop (suc is.length) is value 0 is.length

-- `while (length--) _intsetSet(is, length + prepend, _intsetGetEncoded(is, length, curenc))`
unfoldable pub upgrade_loop : ℕ → ℕ → ℕ → ℕ → Mem → Mem
upgrade_loop zero prepend curenc newenc m = m
upgrade_loop (suc n) prepend curenc newenc m =
    upgrade_loop n prepend curenc newenc
      (set_encoded m (n + prepend) newenc (get_encoded m n curenc))

unfoldable pub intset_upgrade_and_add : Intset → ℤ → Intset
intset_upgrade_and_add is value =
    let newenc = value_encoding value in
    let prepend : ℕ = if ltb_ℤ value (pos 0) then 1 else 0 in
    let is₁ = intset_resize (record is { encoding = newenc }) (is.length + 1) in
    let is₂ = record is₁ {
      contents = upgrade_loop is.length prepend is.encoding newenc is₁.contents;
    } in
    let is₃ = if prepend == 1 then intset_set is₂ 0 value else intset_set is₂ is.length value in
    record is₃ { length = (is.length + 1) % 2 ^ 32 }

-- intsetMoveTail
unfoldable pub intset_move_tail : Intset → ℕ → ℕ → Intset
intset_move_tail is from to =
    let w = width is.encoding in
    let bytes = (is.length - from) * w % 2 ^ 32 in
    record is { contents = memmove is.contents (to * w) (from * w) bytes }

-- intsetAdd, with `*success`.
unfoldable pub intset_add : Intset → ℤ → Option (Intset × Bool)
intset_add is value =
    if ltb is.encoding (value_encoding value)
    then some (intset_upgrade_and_add is value, true)
    else elim (intset_search is value) [
      | none ↦ none
      | some (found _) ↦ some (is, false)
      | some (missing at) ↦
          let is₁ = intset_resize is (is.length + 1) in
          let is₂ = if ltb at is₁.length then intset_move_tail is₁ at (at + 1) else is₁ in
          some (record (intset_set is₂ at value) { length = (is.length + 1) % 2 ^ 32 }, true)
    ]

-- intsetRemove, with `*success`.
unfoldable pub intset_remove : Intset → ℤ → Option (Intset × Bool)
intset_remove is value =
    if leb (value_encoding value) is.encoding
    then elim (intset_search is value) [
      | none ↦ none
      | some (missing _) ↦ some (is, false)
      | some (found at) ↦
          let len = is.length in
          let is₁ = if ltb at (len - 1) then intset_move_tail is (at + 1) at else is in
          some (record (intset_resize is₁ (len - 1)) { length = len - 1 }, true)
    ]
    else some (is, false)

-- intsetFind
unfoldable pub intset_find : Intset → ℤ → Option Bool
intset_find is value =
    if leb (value_encoding value) is.encoding
    then elim (intset_search is value) [
      | none ↦ none
      | some (missing _) ↦ some false
      | some (found _) ↦ some true
    ]
    else some false

-- intsetGet: the position is checked, and `*value` written only inside the array.
unfoldable pub intset_get : Intset → ℕ → Option ℤ
intset_get is at = if ltb at is.length then some (intset_get_at is at) else none

-- intsetBlobLen, with the eight bytes of the header.
unfoldable pub intset_blob_len : Intset → ℕ
intset_blob_len is = 8 + is.length * is.encoding
