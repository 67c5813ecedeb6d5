-- ===== src/Rdb/Defs.antt =====
-- The encodings of redis-2.6.12/src/rdb.c, over the buffer of rio.c. A machine word is stored with
-- its low byte first; htonl turns a word around.
use Prim.Native.Nat.{bit_and, bit_or}
use commit_redis.Prelude.{
  ℕ, ◌+◌, ◌-◌, ◌*◌, ◌/◌, ◌%◌, ◌^◌, Bool, true, false, Option, none, some, List, [], ◌∷◌, ◌++◌, ltb,
  ◌==◌, ◌&&◌, not, if◌then◌else◌, length, take, drop,
}
use commit_redis.Prelude.Int.{ℤ, pos, negsuc, ltb_ℤ}
use commit_redis.Memory.Signed.{to_bits, of_bits}

-- What rioWrite answers: whether the bytes were written, and the state of the writer after it.
abbrev pub Writer : Type 0 → Type 0
Writer W = W → List ℕ → Bool × W

-- rioBufferWrite on the bytes of the buffer.
abbrev pub buffer_write : Writer (List ℕ)
buffer_write written bytes = (true, written ++ bytes)

-- rioBufferRead: the buffer is the bytes that are not read yet.
unfoldable pub buffer_read : ℕ → List ℕ → Option (List ℕ × List ℕ)
buffer_read len unread =
    if ltb (length unread) len then none else some (take len unread, drop len unread)

module _ {W : Type 0} (rio_write : Writer W) where
  -- rdbWriteRaw for a writer that is not NULL; `none` is -1.
  abbrev pub write_raw : W → List ℕ → Option ℕ × W
  write_raw w bytes =
      let (ok, w') = rio_write w bytes in ((if ok then some (length bytes) else none), w')

  -- rdbSaveType
  abbrev pub save_type : W → ℕ → Option ℕ × W
  save_type w kind = write_raw w (kind ∷ [])

  -- The two bytes of `len` and its four bytes in network order.
  unfoldable pub save_len : W → ℕ → Option ℕ × W
  save_len w len =
      if ltb len (2 ^ 6)
      then (let (n, w') = write_raw w (bit_or (bit_and len 255) (0 * 2 ^ 6) ∷ []) in
          ((elim n [ none ↦ none | some _ ↦ some 1 ]), w'))
      else if ltb len (2 ^ 14)
      then (let (n, w') =
            write_raw w (bit_or (bit_and (len / 2 ^ 8) 255) (1 * 2 ^ 6) ∷ bit_and len 255 ∷ []) in
          ((elim n [ none ↦ none | some _ ↦ some 2 ]), w'))
      else (let (n, w₁) = write_raw w (2 * 2 ^ 6 ∷ []) in
          elim n [
            | none ↦ (none, w₁)
            | some _ ↦
                let (m, w₂) =
                  write_raw w₁ (
                    len / 2 ^ 24 % 256 ∷ len / 2 ^ 16 % 256 ∷ len / 2 ^ 8 % 256 ∷ len % 256 ∷ []) in
                (some 5, w₂)
          ])

-- rdbLoadType; -1 is `none`.
unfoldable pub load_type : List ℕ → Option (ℕ × List ℕ)
load_type unread = elim (buffer_read 1 unread) [
  | some (kind ∷ _, rest) ↦ some (kind, rest)
  | _ ↦ none
]

abbrev pub rdb_lenerr : ℕ
rdb_lenerr = 2 ^ 32 - 1

-- rdbLoadLen: the length or the encoding, `*isencoded`, and the bytes that follow.
unfoldable pub load_len : List ℕ → ℕ × Bool × List ℕ
load_len [] = (rdb_lenerr, false, [])
load_len (b ∷ rest) =
    let kind = bit_and b 192 / 2 ^ 6 in
    if kind == 3
    then (bit_and b 63, true, rest)
    else if kind == 0
    then (bit_and b 63, false, rest)
    else if kind == 1
    then elim rest [
      | [] ↦ (rdb_lenerr, false, [])
      | c ∷ rest' ↦ (bit_or (bit_and b 63 * 2 ^ 8) c, false, rest')
    ]
    else elim rest [
      | b₃ ∷ b₂ ∷ b₁ ∷ b₀ ∷ rest' ↦ (b₃ * 2 ^ 24 + b₂ * 2 ^ 16 + b₁ * 2 ^ 8 + b₀, false, rest')
      | short ↦ (rdb_lenerr, false, short)
    ]

-- rdbEncodeInteger: the bytes of `enc`; none for the result 0. `value >> k` keeps the sign, which
-- the low byte of the two's complement does not see.
unfoldable pub encode_integer : ℤ → List ℕ
encode_integer value =
    if not (ltb_ℤ value (negsuc (2 ^ 7 - 1))) && not (ltb_ℤ (pos (2 ^ 7 - 1)) value)
    then bit_or (3 * 2 ^ 6) 0 ∷ bit_and v 255 ∷ []
    else if not (ltb_ℤ value (negsuc (2 ^ 15 - 1))) && not (ltb_ℤ (pos (2 ^ 15 - 1)) value)
    then bit_or (3 * 2 ^ 6) 1 ∷ bit_and v 255 ∷ bit_and (v / 2 ^ 8) 255 ∷ []
    else if not (ltb_ℤ value (negsuc (2 ^ 31 - 1))) && not (ltb_ℤ (pos (2 ^ 31 - 1)) value)
    then bit_or (3 * 2 ^ 6) 2
      ∷ bit_and v 255
      ∷ bit_and (v / 2 ^ 8) 255
      ∷ bit_and (v / 2 ^ 16) 255
      ∷ bit_and (v / 2 ^ 24) 255
      ∷ []
    else []
  where
    v : ℕ
    v = to_bits 8 value

-- rdbLoadIntegerObject, up to the object that is made of the value. `none` is a NULL result or the
-- panic on an unknown encoding.
unfoldable pub load_integer : ℕ → List ℕ → Option (ℤ × List ℕ)
load_integer enctype unread =
    if enctype == 0
    then elim unread [ a ∷ rest ↦ some (of_bits 1 a, rest) | _ ↦ none ]
    else if enctype == 1
    then elim unread [ a ∷ b ∷ rest ↦ some (of_bits 2 (bit_or a (b * 2 ^ 8)), rest) | _ ↦ none ]
    else if enctype == 2
    then elim unread [
      | a ∷ b ∷ c ∷ d ∷ rest ↦
          some (of_bits 4 (bit_or (bit_or (bit_or a (b * 2 ^ 8)) (c * 2 ^ 16)) (d * 2 ^ 24)), rest)
      | _ ↦ none
    ]
    else none
