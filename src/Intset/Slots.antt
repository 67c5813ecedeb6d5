-- ===== src/Intset/Slots.antt =====
-- The elements of an array in memory: writes, the upgrade loop and memmove, element by element.
use native.Mathlib.Nat.{pow-suc}
use native.Mathlib.Decide.{dec_lt}
use commit_redis.Prelude.{
  ℕ, zero, suc, ◌+◌, ◌-◌, ◌*◌, ◌^◌, ◌<◌, ◌≤◌, ◌≡◌, ◌≢◌, refl, ◌∙◌, ap, ◌⊎◌, inl, inr, arith,
}
use commit_redis.Prelude.Int.{ℤ, pos, negsuc}
use commit_redis.Memory.{
  Mem, load, memmove, load-store_self, load-store_other, load-lt, load-memmove_target,
  load-memmove_other,
}
use commit_redis.Memory.Signed.{
  to_bits, of_bits, InWidth, to_bits-lt, of_bits-to_bits, of_bits-InWidth,
}
use commit_redis.Intset.Defs.{width, get_encoded, set_encoded, upgrade_loop}

-- Elements before an index end before it begins.
span : (j k w : ℕ) → j < k → j * w + w ≤ k * w
span j k w h = grind arith

span_wider : (k j c w : ℕ) → k < j → c ≤ w → k * c + c ≤ j * w
span_wider k j c w lt le = let more : k * c ≤ k * w = grind arith in omega (arith, span k j w lt)

span_end : (j to n w : ℕ) → j < to + n → j * w + w ≤ to * w + n * w
span_end j to n w h = omega (arith, span j (to + n) w h)

span_le : (j k w : ℕ) → j ≤ k → j * w ≤ k * w
span_le j k w h = grind arith

shift_by : (to from d w : ℕ) → (to + d) * w - to * w + from * w ≡ (d + from) * w
shift_by to from d w = omega arith

shift : (j to from w : ℕ) → to ≤ j → j * w - to * w + from * w ≡ (j - to + from) * w
shift j to from w h =
    let e : to + (j - to) ≡ j = omega arith in rw e at (shift_by to from (j - to) w)

pub width_pos : (enc : ℕ) → 0 < width enc
width_pos enc = ground arith

pub pow_mono : (c w : ℕ) → c ≤ w → 256 ^ c ≤ 256 ^ w
pow_mono zero zero h = omega arith
pow_mono zero (suc w) h = omega (arith, pow_mono zero w (omega arith), pow-suc 256 w)
pow_mono (suc c) zero h = elim h [ ]
pow_mono (suc c) (suc w) h = omega (arith, pow_mono c w (omega arith), pow-suc 256 w, pow-suc 256 c)

pub InWidth-mono : (c w : ℕ) (v : ℤ) → c ≤ w → InWidth c v → InWidth w v
InWidth-mono c w (pos n) h i = omega (arith, pow_mono c w h)
InWidth-mono c w (negsuc n) h i = omega (arith, pow_mono c w h)

pub get_encoded-InWidth : (m : Mem) (j enc : ℕ) → InWidth (width enc) (get_encoded m j enc)
unfolding get_encoded
get_encoded-InWidth m j enc = of_bits-InWidth (width enc) _ (load-lt (width enc) m (j * width enc))

pub get-set_self :
    (m : Mem) (j enc : ℕ) (v : ℤ)
    → InWidth (width enc) v
    → get_encoded (set_encoded m j enc v) j enc ≡ v
unfolding get_encoded set_encoded
get-set_self m j enc v h =
    rw
      (load-store_self (width enc) m (j * width enc) (to_bits (width enc) v)
        (to_bits-lt (width enc) v))
      (of_bits-to_bits (width enc) v (width_pos enc) h)

pub get-set_other :
    (m : Mem) (j k enc : ℕ) (v : ℤ)
    → j ≢ k
    → get_encoded (set_encoded m j enc v) k enc ≡ get_encoded m k enc
unfolding get_encoded set_encoded
get-set_other m j k enc v ne =
    let w = width enc in
    ap (of_bits w) (load-store_other w w m (j * w) (k * w) (to_bits w v) (apart (dec_lt k j)))
  where
    apart :
        Dec (k < j)
        → (k * width enc + width enc ≤ j * width enc) ⊎ (j * width enc + width enc ≤ k * width enc)
    apart (yes lt) = inl (span k j (width enc) lt)
    apart (no ge) = inr (span j k (width enc) (omega arith))

-- A write with a wider type leaves the narrower elements before it.
pub get-set_wider :
    (m : Mem) (j k c enc : ℕ) (v : ℤ)
    → width c ≤ width enc
    → k < j
    → get_encoded (set_encoded m j enc v) k c ≡ get_encoded m k c
unfolding get_encoded set_encoded
get-set_wider m j k c enc v le lt =
    let w = width enc in
    ap (of_bits (width c)) (
      load-store_other w (width c) m (j * w) (k * width c) (to_bits w v)
        (inl (span_wider k j (width c) w lt le)))

-- `m'` has the `n` elements of `m`, `p` places further on in the wider type, and from `n + p` on
-- what `m` has.
pub record Upgraded (n p c w : ℕ) (m m' : Mem) : Type 0 where
  pub moved : (j : ℕ) → j < n → get_encoded m' (j + p) w ≡ get_encoded m j c
  pub kept : (j : ℕ) → n + p ≤ j → get_encoded m' j w ≡ get_encoded m j w

-- The loop of intsetUpgradeAndAdd, from the last element to the first, overwrites no element before
-- it has been read: each stands `p` places further on with its value, and what lies behind is kept.
pub upgrade_loop_lem :
    (n p c w : ℕ) (m : Mem) → width c ≤ width w → Upgraded n p c w m (upgrade_loop n p c w m)
unfolding upgrade_loop
upgrade_loop_lem zero p c w m le = record {
  moved = λ j lt. absurd (omega arith);
  kept = λ j h. refl;
}
upgrade_loop_lem (suc n) p c w m le =
    let v = get_encoded m n c in
    let m₁ = set_encoded m (n + p) w v in
    let u = upgrade_loop_lem n p c w m₁ le in
    record {
      moved = λ j lt. elim (dec_lt j n) [
        | yes below ↦ u.moved j below ∙ get-set_wider m (n + p) j c w v le (omega arith)
        | no above ↦
            let e : j ≡ n = omega arith in
            rw e (
              u.kept (n + p) (omega arith)
              ∙ get-set_self m (n + p) w v
                  (InWidth-mono (width c) (width w) v le (get_encoded-InWidth m n c)))
      ];
      kept = λ j h. u.kept j (omega arith) ∙ get-set_other m (n + p) j w v (omega arith);
    }

-- An element of the target of memmove, by whole elements.
pub get-memmove_target :
    (m : Mem) (to from n j enc : ℕ)
    → to ≤ j
    → j < to + n
    → get_encoded (memmove m (to * width enc) (from * width enc) (n * width enc)) j enc
      ≡ get_encoded m (j - to + from) enc
unfolding get_encoded
get-memmove_target m to from n j enc lo hi =
    let w = width enc in
    let at : j * w - to * w + from * w ≡ (j - to + from) * w = shift j to from w lo in
    ap (of_bits w) (
      load-memmove_target w m (to * w) (from * w) (n * w) (j * w) (span_le to j w lo)
        (span_end j to n w hi)
      ∙ ap (load w m) at)

pub get-memmove_other :
    (m : Mem) (to from n j enc : ℕ)
    → (j < to) ⊎ (to + n ≤ j)
    → get_encoded (memmove m (to * width enc) (from * width enc) (n * width enc)) j enc
      ≡ get_encoded m j enc
unfolding get_encoded
get-memmove_other m to from n j enc h =
    let w = width enc in
    ap (of_bits w) (load-memmove_other w m (to * w) (from * w) (n * w) (j * w) (memmove_apart h))
  where
    memmove_apart :
        (j < to) ⊎ (to + n ≤ j)
        → (j * width enc + width enc ≤ to * width enc)
          ⊎ (to * width enc + n * width enc ≤ j * width enc)
    memmove_apart (inl lt) = inl (span j to (width enc) lt)
    memmove_apart (inr ge) = inr (omega (arith, span_le (to + n) j (width enc) ge))
