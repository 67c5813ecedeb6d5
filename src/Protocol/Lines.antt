-- ===== src/Protocol/Lines.antt =====
-- Lines and lengths in a buffer to which more bytes are added.
use commit_redis.Prelude.{
  ℕ, zero, suc, ◌+◌, ◌-◌, ◌≤◌, ◌<◌, ◌≡◌, refl, ap, false, Bool-cases, Option-cases, inl, inr, some,
  List, [], ◌∷◌, ◌++◌, ltb, length, length-append, length-drop, take, drop, arith,
}
use commit_redis.Util.Number.{string2ll}
use commit_redis.Protocol.Defs.{
  known, find_cr, head_is, bulk_length, bulk_line, read_bulk_len, mbulk_line, mbulk_count,
  read_mbulk_len,
}

pub take-append : (n : ℕ) (xs ys : List ℕ) → n ≤ length xs → take n (xs ++ ys) ≡ take n xs
take-append zero xs ys h = refl
take-append (suc n) [] ys h = absurd (omega arith)
take-append (suc n) (x ∷ xs) ys h = ap (λ t. x ∷ t) (take-append n xs ys (omega arith))

pub drop-append : (n : ℕ) (xs ys : List ℕ) → n ≤ length xs → drop n (xs ++ ys) ≡ drop n xs ++ ys
drop-append zero xs ys h = refl
drop-append (suc n) [] ys h = absurd (omega arith)
drop-append (suc n) (x ∷ xs) ys h = drop-append n xs ys (omega arith)

pub find_cr-append : (xs ys : List ℕ) (i : ℕ) → find_cr xs ≡ some i → find_cr (xs ++ ys) ≡ some i
find_cr-append [] ys i e = cc
find_cr-append (c ∷ xs) ys i e = elim (Option-cases (find_cr xs)) [
  | inl gone ↦ ground (arith, rw gone at e)
  | inr (j, there) ↦
      let step : find_cr (xs ++ ys) ≡ some j = find_cr-append xs ys j there in
      rw step (rw there at e)
]

head_is-append : (b : ℕ) (xs ys : List ℕ) → 0 < length xs → head_is b (xs ++ ys) ≡ head_is b xs
head_is-append b [] ys h = absurd (omega arith)
head_is-append b (x ∷ xs) ys h = refl

-- The digits of a line that is complete are the same with more bytes behind it.
line_digits :
    (xs ys : List ℕ) (i : ℕ)
    → i + 2 ≤ length xs
    → take (i - 1) (drop 1 (xs ++ ys)) ≡ take (i - 1) (drop 1 xs)
line_digits [] ys i h = absurd (omega arith)
line_digits (x ∷ xs) ys i h = take-append (i - 1) xs ys (omega arith)

pub shorter : (m k : ℕ) → ltb m k ≡ false → k ≤ m
shorter m k e = ground arith

pub longer : (m k : ℕ) → k ≤ m → ltb m k ≡ false
longer m k e = ground arith

bulk_line-append :
    (i : ℕ) (xs ys rest : List ℕ) (ll : ℕ)
    → bulk_line i xs ≡ known ll rest
    → bulk_line i (xs ++ ys) ≡ known ll (rest ++ ys)
unfolding bulk_line
bulk_line-append i xs ys rest ll e = elim (Bool-cases (ltb (length xs) (i + 2))) [
  | inl short ↦ cc (rw short at e)
  | inr whole ↦
      let room = shorter (length xs) (i + 2) whole in
      let room' = longer (length (xs ++ ys)) (i + 2) (omega (arith, room, length-append xs ys)) in
      elim (Bool-cases (head_is b'$' xs)) [
        | inr other ↦ cc (rw (whole, other) at e)
        | inl dollar ↦ elim (Option-cases (bulk_length (string2ll (take (i - 1) (drop 1 xs))))) [
          | inl gone ↦ cc (rw (whole, dollar, gone) at e)
          | inr (n, there) ↦
              let e' : known n (drop (i + 2) xs) ≡ known ll rest = rw (whole, dollar, there) at e in
              let number : n ≡ ll = cc in
              let bytes : drop (i + 2) xs ≡ rest = cc in
              rw
                (
                  room',
                  head_is-append b'$' xs ys (omega (arith, room)),
                  dollar,
                  line_digits xs ys i room,
                  there,
                  drop-append (i + 2) xs ys room,
                  number,
                  bytes,
                )
                refl
        ]
      ]
]

-- A length that could be read is read again with more bytes behind it, whatever the total is.
pub read_bulk_len-append :
    (t t' : ℕ) (xs ys rest : List ℕ) (ll : ℕ)
    → read_bulk_len t xs ≡ known ll rest
    → read_bulk_len t' (xs ++ ys) ≡ known ll (rest ++ ys)
unfolding read_bulk_len
read_bulk_len-append t t' xs ys rest ll e = elim (Option-cases (find_cr xs)) [
  | inl gone ↦ absurd (ground (arith, rw (gone, read_bulk_len) at e))
  | inr (i, there) ↦
      rw (find_cr-append xs ys i there, read_bulk_len)
        (bulk_line-append i xs ys rest ll (rw (there, read_bulk_len) at e))
]

mbulk_line-append :
    (i : ℕ) (xs ys rest : List ℕ) (n : ℕ)
    → mbulk_line i xs ≡ some (known n rest)
    → mbulk_line i (xs ++ ys) ≡ some (known n (rest ++ ys))
unfolding mbulk_line
mbulk_line-append i xs ys rest n e = elim (Bool-cases (ltb (length xs) (i + 2))) [
  | inl short ↦ cc (rw short at e)
  | inr whole ↦
      let room = shorter (length xs) (i + 2) whole in
      let room' = longer (length (xs ++ ys)) (i + 2) (omega (arith, room, length-append xs ys)) in
      elim (Bool-cases (head_is b'*' xs)) [
        | inr other ↦ cc (rw (whole, other) at e)
        | inl star ↦ elim (Option-cases (mbulk_count (string2ll (take (i - 1) (drop 1 xs))))) [
          | inl gone ↦ cc (rw (whole, star, gone) at e)
          | inr (m, there) ↦
              let e' : some (known m (drop (i + 2) xs)) ≡ some (known n rest) =
                rw (whole, star, there) at e in
              let number : m ≡ n = cc in
              let bytes : drop (i + 2) xs ≡ rest = cc in
              rw
                (
                  room',
                  head_is-append b'*' xs ys (omega (arith, room)),
                  star,
                  line_digits xs ys i room,
                  there,
                  drop-append (i + 2) xs ys room,
                  number,
                  bytes,
                )
                refl
        ]
      ]
]

pub read_mbulk_len-append :
    (xs ys rest : List ℕ) (n : ℕ)
    → read_mbulk_len xs ≡ some (known n rest)
    → read_mbulk_len (xs ++ ys) ≡ some (known n (rest ++ ys))
unfolding read_mbulk_len
read_mbulk_len-append xs ys rest n e = elim (Option-cases (find_cr xs)) [
  | inl gone ↦ absurd (ground (arith, rw (gone, read_mbulk_len) at e))
  | inr (i, there) ↦
      rw (find_cr-append xs ys i there, read_mbulk_len)
        (mbulk_line-append i xs ys rest n (rw (there, read_mbulk_len) at e))
]

bulk_line-length :
    (i : ℕ) (xs rest : List ℕ) (ll : ℕ) → bulk_line i xs ≡ known ll rest → length rest ≤ length xs
unfolding bulk_line
bulk_line-length i xs rest ll e = elim (Bool-cases (ltb (length xs) (i + 2))) [
  | inl short ↦ cc (rw short at e)
  | inr whole ↦ elim (Bool-cases (head_is b'$' xs)) [
    | inr other ↦ cc (rw (whole, other) at e)
    | inl dollar ↦ elim (Option-cases (bulk_length (string2ll (take (i - 1) (drop 1 xs))))) [
      | inl gone ↦ cc (rw (whole, dollar, gone) at e)
      | inr (n, there) ↦
          let e' : known n (drop (i + 2) xs) ≡ known ll rest = rw (whole, dollar, there) at e in
          let bytes : drop (i + 2) xs ≡ rest = cc in
          omega (arith, ap length bytes, length-drop (i + 2) xs)
    ]
  ]
]

pub read_bulk_len-length :
    (t : ℕ) (xs rest : List ℕ) (ll : ℕ)
    → read_bulk_len t xs ≡ known ll rest
    → length rest ≤ length xs
unfolding read_bulk_len
read_bulk_len-length t xs rest ll e = elim (Option-cases (find_cr xs)) [
  | inl gone ↦ absurd (ground (arith, rw (gone, read_bulk_len) at e))
  | inr (i, there) ↦ bulk_line-length i xs rest ll (rw (there, read_bulk_len) at e)
]

mbulk_line-length :
    (i : ℕ) (xs rest : List ℕ) (n : ℕ)
    → mbulk_line i xs ≡ some (known n rest)
    → length rest < length xs
unfolding mbulk_line
mbulk_line-length i xs rest n e = elim (Bool-cases (ltb (length xs) (i + 2))) [
  | inl short ↦ cc (rw short at e)
  | inr whole ↦
      let room = shorter (length xs) (i + 2) whole in
      elim (Bool-cases (head_is b'*' xs)) [
        | inr other ↦ cc (rw (whole, other) at e)
        | inl star ↦ elim (Option-cases (mbulk_count (string2ll (take (i - 1) (drop 1 xs))))) [
          | inl gone ↦ cc (rw (whole, star, gone) at e)
          | inr (m, there) ↦
              let e' : some (known m (drop (i + 2) xs)) ≡ some (known n rest) =
                rw (whole, star, there) at e in
              let bytes : drop (i + 2) xs ≡ rest = cc in
              omega (arith, ap length bytes, length-drop (i + 2) xs, room)
        ]
      ]
]

pub read_mbulk_len-length :
    (xs rest : List ℕ) (n : ℕ) → read_mbulk_len xs ≡ some (known n rest) → length rest < length xs
unfolding read_mbulk_len
read_mbulk_len-length xs rest n e = elim (Option-cases (find_cr xs)) [
  | inl gone ↦ absurd (ground (arith, rw (gone, read_mbulk_len) at e))
  | inr (i, there) ↦ mbulk_line-length i xs rest n (rw (there, read_mbulk_len) at e)
]
