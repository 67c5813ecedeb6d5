-- ===== src/Intset/Upgrade.antt =====
-- intsetUpgradeAndAdd: every element moves to a wider type.
use native.Mathlib.Decide.{dec_lt}
use commit_redis.Prelude.{
  ℕ, ◌+◌, ◌*◌, ◌%◌, ◌^◌, ◌<◌, ◌≤◌, ◌≡◌, refl, sym, ◌∙◌, inl, inr, arith, Bool-cases, if◌then◌else◌,
  true, false,
}
use commit_redis.Prelude.Int.{ℤ, pos, negsuc, ◌<ℤ◌, ltb_ℤ}
use commit_redis.Memory.Signed.{InWidth}
use commit_redis.Intset.Defs.{
  Intset, missing, intset_get_at, value_encoding, width, set_encoded, intset_resize,
  intset_upgrade_and_add, upgrade_loop,
}
use commit_redis.Intset.Slots.{get_encoded-InWidth, get-set_self, get-set_other, upgrade_loop_lem}
use commit_redis.Intset.Search.{IsValid, IsAnswer}
use commit_redis.Intset.Splice.{Member, Spliced, Spliced-sorted, less_ne}
use commit_redis.Intset.Encoding.{
  IsEncoding, IsInt64, width_eq, value_encoding_valid, value_encoding_fits,
}

module _ (is : Intset) (ok : IsValid is) where
  -- The upgrade: every element moves to the wider type, the value goes before or behind them all.
  abbrev pub prepend : ℤ → ℕ
  prepend v = if ltb_ℤ v (pos 0) then 1 else 0

  abbrev pub place : ℤ → ℕ
  place v = if ltb_ℤ v (pos 0) then 0 else is.length

  abbrev pub upgraded : ℤ → Intset
  upgraded v =
      let e = value_encoding v in
      record {
        encoding = e;
        length = (is.length + 1) % 2 ^ 32;
        contents =
            set_encoded (upgrade_loop is.length (prepend v) is.encoding e is.contents) (place v) e
              v;
        alloc = (is.length + 1) * e % 2 ^ 32;
      }

  pub upgrade_runs : (v : ℤ) → intset_upgrade_and_add is v ≡ upgraded v
  unfolding intset_upgrade_and_add intset_resize
  upgrade_runs v = elim (Bool-cases (ltb_ℤ v (pos 0))) [
    | inl neg ↦ rw neg refl
    | inr nonneg ↦ rw nonneg refl
  ]

  -- A value too wide for the encoding lies outside all elements.
  outside :
      (v : ℤ) (j : ℕ)
      → ¬ InWidth (width is.encoding) v
      → (ltb_ℤ v (pos 0) ≡ true → v <ℤ intset_get_at is j)
        × (ltb_ℤ v (pos 0) ≡ false → intset_get_at is j <ℤ v)
  outside v j wide =
      by_sign v (intset_get_at is j) wide (get_encoded-InWidth is.contents j is.encoding)
    where
      by_sign :
          (v x : ℤ)
          → ¬ InWidth (width is.encoding) v
          → InWidth (width is.encoding) x
          → (ltb_ℤ v (pos 0) ≡ true → v <ℤ x) × (ltb_ℤ v (pos 0) ≡ false → x <ℤ v)
      by_sign (pos n) (pos m) out inw = (ground arith, ground arith)
      by_sign (pos n) (negsuc m) out inw = (ground arith, ground arith)
      by_sign (negsuc n) (pos m) out inw = (ground arith, ground arith)
      by_sign (negsuc n) (negsuc m) out inw = (ground arith, ground arith)

  module _ (v : ℤ) (int64 : IsInt64 v) (wider : is.encoding < value_encoding v) where
    widths : width is.encoding ≤ width (value_encoding v)
    widths =
        omega
          (arith, width_eq is.encoding ok.enc, width_eq (value_encoding v) (value_encoding_valid v))

    fits_new : InWidth (width (value_encoding v)) v
    fits_new =
        (value_encoding_fits v (value_encoding v) int64 (value_encoding_valid v)).0 (omega arith)

    too_wide : ¬ InWidth (width is.encoding) v
    too_wide = (value_encoding_fits v is.encoding int64 ok.enc).1 wider

    pub upgraded-Spliced : Spliced is v (place v) (upgraded v)
    upgraded-Spliced = elim (Bool-cases (ltb_ℤ v (pos 0))) [
      | inl neg ↦
          let u = upgrade_loop_lem is.length 1 is.encoding (value_encoding v) is.contents widths in
          rw neg (record {
            inside = omega arith;
            len = omega (arith, ok.small);
            new = get-set_self _ 0 (value_encoding v) v fits_new;
            below = λ j lt. absurd (omega arith);
            above = λ j ge lt.
                get-set_other _ 0 (j + 1) (value_encoding v) v (omega arith) ∙ u.moved j lt;
          })
      | inr nonneg ↦
          let u = upgrade_loop_lem is.length 0 is.encoding (value_encoding v) is.contents widths in
          rw nonneg (record {
            inside = omega arith;
            len = omega (arith, ok.small);
            new = get-set_self _ is.length (value_encoding v) v fits_new;
            below = λ j lt.
                let same : j + 0 ≡ j = omega arith in
                get-set_other _ is.length j (value_encoding v) v (omega arith)
                ∙ rw same at (u.moved j lt);
            above = λ j ge lt. absurd (omega arith);
          })
    ]

    pub upgraded-IsValid : is.length + 1 < 2 ^ 28 → IsValid (upgraded v)
    upgraded-IsValid more = record {
      enc = value_encoding_valid v;
      small = omega arith;
      room = room_upgraded (value_encoding_valid v);
      sorted =
          Spliced-sorted is v (place v) (upgraded v) upgraded-Spliced ok
            (λ j lt. (outside v j too_wide).1 (ground arith))
            (λ j ge lt. (outside v j too_wide).0 (ground arith));
    }
      where
        room_upgraded :
            IsEncoding (value_encoding v)
            → (is.length + 1) % 2 ^ 32 * value_encoding v
              ≤ (is.length + 1) * value_encoding v % 2 ^ 32
        room_upgraded (inl e) = rw e (omega arith)
        room_upgraded (inr (inl e)) = rw e (omega arith)
        room_upgraded (inr (inr e)) = rw e (omega arith)

  -- A value that intsetSearch does not find is no element.
  pub answer-not_Member : (v : ℤ) (at : ℕ) → IsAnswer is v (missing at) → ¬ Member is v
  answer-not_Member v at (le, before, after) (j, lt, e) = elim (dec_lt j at) [
    | yes below ↦ less_ne _ _ (before j below) e
    | no above ↦ less_ne _ _ (after j (omega arith) lt) (sym e)
  ]

  -- A value wider than the encoding is no element.
  pub wide-not_Member : (v : ℤ) → IsInt64 v → is.encoding < value_encoding v → ¬ Member is v
  wide-not_Member v int64 wider (j, lt, e) =
      too_wide v int64 wider (rw e at (get_encoded-InWidth is.contents j is.encoding))
