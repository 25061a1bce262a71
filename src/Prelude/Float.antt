-- ===== src/Prelude/Float.antt =====
-- `f64` as a parameter: the type, its conversion from an integer, and its operations. Nothing is
-- assumed of them, so what is proved holds for any rounding.
use cantools_rs.Prelude.Int.{ℤ, pos, sub_ℕ, pos_part, neg_part}
use Prim.Native.Nat.{◌+◌, ◌*◌, ◌/◌}

pub record Float : Type 1 where
  pub F : Type 0
  pub of_int : ℤ → F
  pub add : F → F → F
  pub mul : F → F → F
  pub div : F → F → F

-- Whole numbers that are rounded towards zero, for concrete runs on values that are not negative.
abbrev pub whole : Float
whole = record {
  F = ℤ;
  of_int = λ n. n;
  add = λ a b. sub_ℕ (pos_part a + pos_part b) (neg_part a + neg_part b);
  mul = λ a b. pos (pos_part a * pos_part b);
  div = λ a b. pos (pos_part a / pos_part b);
}
