-- ===== src/Dbc/SignExtend.antt =====
-- `sign_extend` is the two's complement reading of a field.
use native.Mathlib.Nat.{
  mul-add-div_right, mul-div_cancel, one-le-pow, mul-lt-mul_of_pos_right, mul-le-mul_right, pow-suc,
  mod-eq_of_lt, div-eq_of_lt, add-zero,
}
use cantools_rs.Prelude.{
  ℕ, suc, lt→ltb, le→ltb_false, ◌∙◌, panic, ◌⊎◌, ◌+◌, ◌-◌, ◌*◌, ◌/◌, ◌%◌, ◌^◌, ◌≤◌, ◌<◌, ◌≡◌, ok,
  ap, arith, lt-cases, inl, inr,
}
use cantools_rs.Prelude.Bits.{pow-add}
use cantools_rs.Prelude.Int.{signed}
use cantools_rs.Dbc.Bits.{sign_extend, asr}

-- A field of `w` bits, moved up by `s` bits to fill 64, reads as the same signed number after `s`
-- arithmetic shifts down.
module _ (w s raw : ℕ) (whole : w + s ≡ 64) (some_bits : 0 < w) (fits : raw < 2 ^ w) where
  unit : 0 < 2 ^ s
  unit = one-le-pow s 2 (omega arith)

  top : 2 ^ w * 2 ^ s ≡ 2 ^ 64
  top = rw (← pow-add 2 w s, whole)

  half : 2 ^ (w - 1) * 2 ^ s ≡ 2 ^ 63
  half = rw (← pow-add 2 (w - 1) s) (ap (λ k. 2 ^ k) {y = 63} (omega arith))

  double : 2 ^ w ≡ 2 ^ (w - 1) + 2 ^ (w - 1)
  double = ap (λ k. 2 ^ k) {y = suc (w - 1)} (omega arith) ∙ pow-suc 2 (w - 1) ∙ omega arith

  no_wrap : raw * 2 ^ s < 2 ^ 64
  no_wrap = rw top at (mul-lt-mul_of_pos_right fits unit)

  asr-signed_low : raw < 2 ^ (w - 1) → asr (signed 64 (raw * 2 ^ s % 2 ^ 64)) s ≡ signed w raw
  asr-signed_low low =
      let below : raw * 2 ^ s < 2 ^ 63 = rw half at (mul-lt-mul_of_pos_right low unit) in
      rw (mod-eq_of_lt no_wrap, lt→ltb _ _ below, lt→ltb _ _ low, mul-div_cancel raw unit)

  asr-signed_high : 2 ^ (w - 1) ≤ raw → asr (signed 64 (raw * 2 ^ s % 2 ^ 64)) s ≡ signed w raw
  asr-signed_high high =
      let above : 2 ^ 63 ≤ raw * 2 ^ s = rw half at (mul-le-mul_right (2 ^ s) high) in
      let q : ℕ = 2 ^ w - raw - 1 in
      let parts : 2 ^ 64 - raw * 2 ^ s - 1 ≡ q * 2 ^ s + (2 ^ s - 1) =
        omega (
          arith,
          top,
          unit,
          ap (λ (t : ℕ). t * 2 ^ s) {x = 2 ^ w} {y = raw + q + 1} (omega arith),
        ) in
      let quotient : (2 ^ 64 - raw * 2 ^ s - 1) / 2 ^ s ≡ q = rw (
        parts,
        mul-add-div_right unit,
        div-eq_of_lt {n = 2 ^ s - 1} {m = 2 ^ s} (omega (arith, unit)),
        add-zero,
      ) in
      rw (mod-eq_of_lt no_wrap, le→ltb_false _ _ above, le→ltb_false _ _ high, quotient)

  pub asr-signed : asr (signed 64 (raw * 2 ^ s % 2 ^ 64)) s ≡ signed w raw
  asr-signed = elim (lt-cases raw (2 ^ (w - 1))) [
    | inl low ↦ asr-signed_low low
    | inr high ↦ asr-signed_high high
  ]

-- A width of zero, or above 64, panics.
pub sign_extend_panic : (raw width : ℕ) → (width ≡ 0) ⊎ (64 < width) → sign_extend raw width ≡ panic
unfolding sign_extend
sign_extend_panic raw width (inl none) = ground arith
sign_extend_panic raw width (inr wide) = ground arith

-- For a width of 1 to 64 and a field of that many bits, `sign_extend` returns the two's complement reading of the field.
pub sign_extend-signed :
    (raw width : ℕ)
    → 0 < width
    → width ≤ 64
    → raw < 2 ^ width
    → sign_extend raw width ≡ ok (signed width raw)
unfolding sign_extend
sign_extend-signed raw width some_bits narrow fits =
    ground (arith, asr-signed width (64 - width) raw (omega arith) some_bits fits)
