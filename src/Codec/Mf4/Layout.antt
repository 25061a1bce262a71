-- ===== src/Codec/Mf4/Layout.antt =====
-- The layout of a record: fields of fixed width, and the slices that find them again.
use cantools_rs.Prelude.{
  ℕ, ltb, ◌+◌, ◌-◌, ◌≤◌, false, ◌∷◌, ◌++◌, ok, Bytes, length, take, drop, arith, ◌≡◌, refl, ◌∙◌, ap,
  ap₂, sym, take-append, drop-append, le→ltb_false, length-append,
}
use cantools_rs.Prelude.Endian.{le_bytes}
use cantools_rs.Core.{CoreError}
use cantools_rs.Codec.Mf4.{sub_slice}

-- The layout of a record around its two fields of fixed width.
abbrev pub layout_of : ℕ → ℕ → ℕ → ℕ → ℕ → Bytes → Bytes → Bytes
layout_of ns raw flags index len name payload =
    le_bytes 8 ns
    ++ le_bytes 4 raw
    ++ le_bytes 2 flags
    ++ le_bytes 4 index
    ++ len ∷ 0 ∷ name
    ++ payload

module _ (ns raw flags index len : ℕ) (name payload : Bytes) (name_fits : length name ≡ 32)
    (payload_fits : length payload ≡ 64) where
  abbrev layout : Bytes
  layout = layout_of ns raw flags index len name payload

  pub length-layout : length layout ≡ 116
  length-layout = omega (arith, length-append name payload)

  pub inside : (k : ℕ) → k ≤ 116 → ltb (length layout) k ≡ false
  inside k h = le→ltb_false (length layout) k (omega (arith, length-layout))

  pub slice-name : sub_slice {E = CoreError} layout 20 52 ≡ ok name
  unfolding sub_slice
  slice-name =
      rw (inside 52 (omega arith))
        (ap ok (ap (λ n. take n (name ++ payload)) (sym name_fits) ∙ take-append name payload))

  pub slice-payload :
      (n : ℕ) → n ≤ 64 → sub_slice {E = CoreError} layout 52 (52 + n) ≡ ok (take n payload)
  unfolding sub_slice
  slice-payload n h = rw (inside (52 + n) (omega arith)) (
      ap ok (
        ap₂ take {x = 52 + n - 52} {y = n} (omega arith)
          (ap (λ k. drop k (name ++ payload)) (sym name_fits) ∙ drop-append name payload)))

  pub slice-low :
      (sub_slice {E = CoreError} layout 0 8 ≡ ok (le_bytes 8 ns))
      × (sub_slice {E = CoreError} layout 8 12 ≡ ok (le_bytes 4 raw))
      × (sub_slice {E = CoreError} layout 12 14 ≡ ok (le_bytes 2 flags))
      × (sub_slice {E = CoreError} layout 14 18 ≡ ok (le_bytes 4 index))
  unfolding sub_slice
  slice-low = (
    rw (inside 8 (omega arith)) refl,
    rw (inside 12 (omega arith)) refl,
    rw (inside 14 (omega arith)) refl,
    rw (inside 18 (omega arith)) refl,
  )
