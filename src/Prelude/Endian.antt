-- ===== src/Prelude/Endian.antt =====
-- Numbers as bytes, the low byte first.
use Prim.Native.Nat.{ℕ, zero, suc, ◌+◌, ◌*◌, ◌/◌, ◌%◌, ◌^◌, ◌<◌}
use mathlib.Core.Path.{◌≡◌}
use mathlib.Core.List.{[], ◌∷◌}
use native.Mathlib.Nat.{pow-suc}
use native.Mathlib.Omega.{arith}
use cantools_rs.Prelude.Lists.{Bytes}

abbrev pub le_value : Bytes → ℕ
le_value [] = 0
le_value (b ∷ bs) = b + 256 * le_value bs

-- `to_le_bytes` of an integer of `size` bytes.
abbrev pub le_bytes : ℕ → ℕ → Bytes
le_bytes zero n = []
le_bytes (suc size) n = n % 256 ∷ le_bytes size (n / 256)

pub le_value-le_bytes : (size n : ℕ) → n < 256 ^ size → le_value (le_bytes size n) ≡ n
le_value-le_bytes zero n h = omega arith
le_value-le_bytes (suc size) n h =
    omega
      (arith, pow-suc 256 size, le_value-le_bytes size (n / 256) (omega (arith, pow-suc 256 size)))
