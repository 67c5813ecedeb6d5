-- ===== src/Memory.antt =====
-- Bytes in memory: little-endian integers, memmove, and two's complement (endianconv.c keeps the
-- stored form little-endian on every host).
pub mod Signed
use Prim.Native.Nat.{pred}
use native.Mathlib.Nat.{pow-suc, add-zero}
use commit_redis.Prelude.{
  ℕ, zero, suc, ◌+◌, ◌-◌, ◌*◌, ◌/◌, ◌%◌, ◌^◌, ◌<◌, ◌≤◌, ◌≡◌, refl, sym, ◌∙◌, ap, ◌⊎◌, inl, inr,
  Bool, true, false, arith, leb, ltb, Bool-cases, if◌then◌else◌, ◌==◌, ◌&&◌,
}

-- The byte at each offset.
abbrev pub Mem : Type 0
Mem = ℕ → ℕ

abbrev pub put_byte : Mem → ℕ → ℕ → Mem
put_byte m a b x = if x == a then b else m x

-- An unsigned integer of `w` bytes at `a`.
unfoldable pub load : ℕ → Mem → ℕ → ℕ
load zero m a = 0
load (suc w) m a = m a % 256 + 256 * load w m (a + 1)

unfoldable pub store : ℕ → Mem → ℕ → ℕ → Mem
store zero m a v = m
store (suc w) m a v = store w (put_byte m a (v % 256)) (a + 1) (v / 256)

-- `memmove(m + dst, m + src, n)`
unfoldable pub memmove : Mem → ℕ → ℕ → ℕ → Mem
memmove m dst src n x = if leb dst x && ltb x (dst + n) then m (x - dst + src) else m x

pub store_outside : (w : ℕ) (m : Mem) (a v x : ℕ) → (x < a) ⊎ (a + w ≤ x) → store w m a v x ≡ m x
unfolding store
store_outside zero m a v x h = refl
store_outside (suc w) m a v x h =
    store_outside w (put_byte m a (v % 256)) (a + 1) (v / 256) x (ground arith) ∙ ground arith

-- Two integers are equal where their bytes are.
pub load-agree :
    (w : ℕ) (m m' : Mem) (a a' : ℕ)
    → ((i : ℕ) → i < w → m (a + i) ≡ m' (a' + i))
    → load w m a ≡ load w m' a'
unfolding load
load-agree zero m m' a a' h = refl
load-agree (suc w) m m' a a' h =
    let first : m a ≡ m' a' = rw (add-zero a, add-zero a') at (h 0 (omega arith)) in
    let rest = load-agree w m m' (a + 1) (a' + 1) (λ i lt.
      let e : a + 1 + i ≡ a + (i + 1) = omega arith in
      let e' : a' + 1 + i ≡ a' + (i + 1) = omega arith in rw (e, e') (h (i + 1) (omega arith))) in
    rw (first, rest) refl

pub load-store_other :
    (w w' : ℕ) (m : Mem) (a b v : ℕ)
    → (b + w' ≤ a) ⊎ (a + w ≤ b)
    → load w' (store w m a v) b ≡ load w' m b
load-store_other w w' m a b v h =
    load-agree w' (store w m a v) m b b (λ i lt. store_outside w m a v (b + i) (omega arith))

pub load-store_self : (w : ℕ) (m : Mem) (a v : ℕ) → v < 256 ^ w → load w (store w m a v) a ≡ v
unfolding load store
load-store_self zero m a v h = omega arith
load-store_self (suc w) m a v h =
    let first : store w (put_byte m a (v % 256)) (a + 1) (v / 256) a ≡ v % 256 =
      store_outside w (put_byte m a (v % 256)) (a + 1) (v / 256) a (omega arith) ∙ ground arith in
    let rest =
      load-store_self w (put_byte m a (v % 256)) (a + 1) (v / 256) (omega (arith, pow-suc 256 w)) in
    omega (arith, first, rest)

pub load-lt : (w : ℕ) (m : Mem) (a : ℕ) → load w m a < 256 ^ w
unfolding load
load-lt zero m a = omega arith
load-lt (suc w) m a = omega (arith, load-lt w m (a + 1), pow-suc 256 w)

-- What memmove leaves at its target and elsewhere.
pub load-memmove_target :
    (w : ℕ) (m : Mem) (dst src n a : ℕ)
    → dst ≤ a
    → a + w ≤ dst + n
    → load w (memmove m dst src n) a ≡ load w m (a - dst + src)
unfolding memmove
load-memmove_target w m dst src n a lo hi =
    load-agree w (memmove m dst src n) m a (a - dst + src) (λ i lt.
      let inside : leb dst (a + i) && ltb (a + i) (dst + n) ≡ true = ground arith in
      let at : a + i - dst + src ≡ a - dst + src + i = omega arith in rw (inside, at) refl)

pub load-memmove_other :
    (w : ℕ) (m : Mem) (dst src n a : ℕ)
    → (a + w ≤ dst) ⊎ (dst + n ≤ a)
    → load w (memmove m dst src n) a ≡ load w m a
unfolding memmove
load-memmove_other w m dst src n a h =
    load-agree w (memmove m dst src n) m a a (λ i lt. ground arith)
