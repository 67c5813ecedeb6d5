-- ===== src/Dict/Power.antt =====
-- _dictNextPower: the size of a new table.
use native.Mathlib.Nat.{pow-suc}
use commit_redis.Prelude.{
  ℕ, zero, suc, ◌*◌, ◌%◌, ◌^◌, ◌<◌, ◌≤◌, ◌≡◌, refl, ap, ◌⊎◌, inl, inr, false, some, arith, leb,
  leb→le, Bool-cases,
}
use commit_redis.Dict.Defs.{next_power_loop, dict_next_power, long_max}

-- `p` is a power of two that holds `size`, and no more than twice what is asked for.
pub record IsNextPower (size p : ℕ) : Type 0 where
  pub exponent : ℕ
  pub power : p ≡ 2 ^ exponent
  pub enough : size ≤ p
  pub tight : (p ≡ 4) ⊎ (p < 2 * size)
  pub least : 4 ≤ p

next_power_loop_lem :
    (fuel i size k : ℕ)
    → size < 2 ^ 63
    → i ≡ 2 ^ k
    → 4 ≤ i
    → (i ≡ 4) ⊎ (i < 2 * size)
    → 2 ^ 64 ≤ i * 2 ^ fuel
    → (p : ℕ) × (next_power_loop fuel i size ≡ some p) × IsNextPower size p
unfolding next_power_loop
next_power_loop_lem zero i size k small e four tight big = absurd (omega arith)
next_power_loop_lem (suc fuel) i size k small e four tight big = elim (Bool-cases (leb size i)) [
  | inl stop ↦ (
    i,
    rw (stop, next_power_loop) refl,
    record { exponent = k; power = e; enough = leb→le size i stop; tight = tight; least = four },
  )
  | inr go ↦
      let less : i < size = ground arith in
      let wrap : i * 2 % 2 ^ 64 ≡ i * 2 = omega arith in
      let (p, runs, ok) =
        next_power_loop_lem fuel (i * 2 % 2 ^ 64) size (suc k) small (omega (arith, pow-suc 2 k))
          (omega arith) (inr (omega arith))
          (rw wrap (omega (arith, big, ap (λ (t : ℕ). i * t) (pow-suc 2 fuel)))) in
      (p, rw (go, next_power_loop) runs, ok)
]

-- _dictNextPower returns for every size below LONG_MAX, and its 64 rounds are enough.
pub dict_next_power_lem :
    (size : ℕ) → size < long_max → (p : ℕ) × (dict_next_power size ≡ some p) × IsNextPower size p
unfolding dict_next_power
dict_next_power_lem size h =
    let (p, runs, ok) =
      next_power_loop_lem 64 4 size 2 (omega arith) refl (omega arith) (inl refl) (omega arith) in
    let below : leb long_max size ≡ false = ground arith in (p, rw below runs, ok)
