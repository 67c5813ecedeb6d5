-- ===== src/Sds/Tests.antt =====
-- Strings that grow and are cleared.
use commit_redis.Prelude.{ℕ, ◌≡◌, refl, some, List, [], ◌∷◌, replicate, length-replicate, arith}
use commit_redis.Sds.Defs.{
  Sdshdr, memcpy, sds_new_len, sds_clear, sds_make_room_for, sds_cat_len, sds_cpy_len,
  sds_grow_zero,
}
use commit_redis.Sds.Room.{Holds}
use commit_redis.Sds.Writes.{sds_writes_lem}

abbrev fresh : ℕ → List ℕ
fresh n = replicate n 7

abbrev ab : Sdshdr
ab = record { len = 2; free = 1; buf = b'a' ∷ b'b' ∷ 0 ∷ 7 ∷ [] }

new_string : sds_new_len (b'a' ∷ []) ≡ record { len = 1; free = 0; buf = b'a' ∷ 0 ∷ [] }
unfolding sds_new_len
new_string = refl

cleared : sds_clear ab ≡ some (record { len = 0; free = 3; buf = 0 ∷ b'b' ∷ 0 ∷ 7 ∷ [] })
unfolding sds_clear memcpy
cleared = refl

grown :
    sds_cat_len fresh ab (b'c' ∷ b'd' ∷ [])
    ≡ some (record { len = 4; free = 4; buf = b'a' ∷ b'b' ∷ b'c' ∷ b'd' ∷ 0 ∷ 7 ∷ 7 ∷ 7 ∷ 7 ∷ [] })
unfolding sds_cat_len sds_make_room_for memcpy
grown = refl

sds_writes_example :
    ((s' : Sdshdr) × (sds_cat_len fresh ab (b'c' ∷ b'd' ∷ []) ≡ some s')
      × Holds s' (b'a' ∷ b'b' ∷ b'c' ∷ b'd' ∷ []))
    × ((s' : Sdshdr) × (sds_cpy_len fresh ab (b'c' ∷ b'd' ∷ []) ≡ some s')
        × Holds s' (b'c' ∷ b'd' ∷ []))
    × ((s' : Sdshdr) × (sds_grow_zero fresh ab 3 ≡ some s') × Holds s' (b'a' ∷ b'b' ∷ 0 ∷ []))
sds_writes_example =
    sds_writes_lem fresh (λ n. length-replicate {A = ℕ} n 7) ab (b'a' ∷ b'b' ∷ [])
      (b'c' ∷ b'd' ∷ []) 3 (7 ∷ [], refl, refl, refl) (omega arith) (omega arith) (omega arith)
