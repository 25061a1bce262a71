-- ===== src/Prelude/Bits.antt =====
-- The bit operations of Rust's unsigned integers as arithmetic, at every width.
use Prim.Native.Nat.{
  ℕ, zero, suc, ◌+◌, ◌-◌, ◌*◌, ◌/◌, ◌%◌, ◌^◌, ◌≤◌, ◌<◌, min, max, bit_and, bit_or, digits, bitwise,
  bit_and-bitwise, bit_or-bitwise,
}
use mathlib.Core.Path.{◌≡◌, refl, sym, ap, ◌∙◌}
use mathlib.Core.Logic.{◌⊎◌, inl, inr}
use native.Mathlib.Nat.{
  pow-suc, one-le-pow, mod-lt, mod-eq_of_lt, mul-le-mul_right, pow-le-pow_right, div-add-mod,
  mul-add-mod_self_left, div-div-eq-div-mul, mul-one, div-one, add-zero, add-suc, mul_assoc,
  pow-zero,
}
use native.Mathlib.Omega.{arith}
use mathlib.Core.Bool.{Bool, not}
use cantools_rs.Prelude.Tests.{◌==◌}

module _ (z : ℕ → ℕ) (f : ℕ → ℕ → ℕ) where
  -- One digit more than needed changes nothing,
  digits_one_more : (n a b : ℕ) → a ≤ n → digits z f (suc n) a b ≡ digits z f n a b
  digits_one_more zero zero b h = refl
  digits_one_more zero (suc a) b h = absurd (omega arith)
  digits_one_more (suc n) zero b h = refl
  digits_one_more (suc n) (suc a) b h =
      omega (arith, digits_one_more n (suc a / 2) (b / 2) (omega arith))

  -- and so the count of digits may be the number itself.
  digits_enough : (n a b : ℕ) → a ≤ n → digits z f n a b ≡ bitwise z f a b
  digits_enough zero zero b h = refl
  digits_enough zero (suc a) b h = absurd (omega arith)
  digits_enough (suc n) a b h = elim (last a n h) [
    | inl e ↦ rw e
    | inr below ↦ digits_one_more n a b below ∙ digits_enough n a b below
  ]
    where
      last : (i j : ℕ) → i ≤ suc j → (i ≡ suc j) ⊎ (i ≤ j)
      last i j le = grind arith

  bitwise_step :
      (x y : ℕ)
      → bitwise z f (suc x) y ≡ bitwise z f (suc x / 2) (y / 2) * 2 + f (suc x % 2) (y % 2)
  bitwise_step x y = omega (arith, digits_enough x (suc x / 2) (y / 2) (omega arith))

-- The lowest digit of each operation.
bit_and_step : (x y : ℕ) → bit_and x y ≡ bit_and (x / 2) (y / 2) * 2 + min (x % 2) (y % 2)
bit_and_step zero y = simp bit_and-bitwise (omega arith)
bit_and_step (suc x) y = simp bit_and-bitwise (bitwise_step (λ _. 0) min x y)

bit_or_step : (x w : ℕ) → bit_or x w ≡ bit_or (x / 2) (w / 2) * 2 + max (x % 2) (w % 2)
bit_or_step zero w = simp bit_or-bitwise (omega arith)
bit_or_step (suc x) w = simp bit_or-bitwise (bitwise_step (λ y. y) max x w)

zero-bit_or : (b : ℕ) → bit_or 0 b ≡ b
zero-bit_or b = bit_or-bitwise 0 b

zero-bit_and : (b : ℕ) → bit_and 0 b ≡ 0
zero-bit_and b = bit_and-bitwise 0 b

-- `|` is commutative; the induction is on a bound of both numbers.
bit_or_comm_below : (n a b : ℕ) → a ≤ n → b ≤ n → bit_or a b ≡ bit_or b a
bit_or_comm_below n zero zero h k = refl
bit_or_comm_below zero zero (suc b) h k = absurd (omega arith)
bit_or_comm_below zero (suc a) b h k = absurd (omega arith)
bit_or_comm_below (suc n) a b h k = omega (
  arith,
  bit_or_step a b,
  bit_or_step b a,
  bit_or_comm_below n (a / 2) (b / 2) (omega arith) (omega arith),
)

pub bit_or_comm : (a b : ℕ) → bit_or a b ≡ bit_or b a
bit_or_comm a b = bit_or_comm_below (a + b) a b (omega arith) (omega arith)

pub bit_or-zero : (a : ℕ) → bit_or a 0 ≡ a
bit_or-zero a = bit_or_comm a 0 ∙ zero-bit_or a

double_pow : (q k : ℕ) → q * 2 ^ suc k ≡ 2 * (q * 2 ^ k)
double_pow q k = omega (arith, ap (λ (t : ℕ). q * t) (pow-suc 2 k))

-- `(q << k) | r` is a sum where `r` has at most `k` bits.
pub shl-bit_or : (k q r : ℕ) → r < 2 ^ k → bit_or (q * 2 ^ k) r ≡ q * 2 ^ k + r
shl-bit_or zero q r h =
    let none_left : r ≡ 0 = omega arith in rw none_left (omega (arith, bit_or-zero (q * 2 ^ 0)))
shl-bit_or (suc k) q r h = omega (
  arith,
  pow-suc 2 k,
  double_pow q k,
  bit_or_step (q * 2 ^ suc k) r,
  ap (λ (t : ℕ). bit_or t (r / 2)) {x = q * 2 ^ suc k / 2} {y = q * 2 ^ k}
      (omega (arith, double_pow q k)),
  shl-bit_or k q (r / 2) (omega (arith, pow-suc 2 k)),
)

-- `r | (q << k)`, as a flag is set above a small value.
pub bit_or-shl : (k q r : ℕ) → r < 2 ^ k → bit_or r (q * 2 ^ k) ≡ r + q * 2 ^ k
bit_or-shl k q r h = omega (arith, bit_or_comm r (q * 2 ^ k), shl-bit_or k q r h)

bit_and-zero_below : (bound x : ℕ) → x ≤ bound → bit_and x 0 ≡ 0
bit_and-zero_below bound zero h = zero-bit_and 0
bit_and-zero_below zero (suc x) h = absurd (omega arith)
bit_and-zero_below (suc bound) (suc x) h =
    omega (arith, bit_and_step (suc x) 0, bit_and-zero_below bound (suc x / 2) (omega arith))

bit_and-zero : (x : ℕ) → bit_and x 0 ≡ 0
bit_and-zero x = bit_and-zero_below x x (omega arith)

pub bit_and-one : (x : ℕ) → bit_and x 1 ≡ x % 2
bit_and-one x = omega (arith, bit_and_step x 1, bit_and-zero (x / 2))

-- The remainder by a product, from the remainder by one factor and the rest.
pub mod-mul : (a m k : ℕ) → 0 < m → 0 < k → a % (m * k) ≡ a / m % k * m + a % m
mod-mul a m k pos_m pos_k =
    let r : ℕ = a / m % k in
    let low : a % m < m = mod-lt a pos_m in
    let r_le : suc r ≤ k = mod-lt (a / m) pos_k in
    let room : suc r * m ≤ k * m = mul-le-mul_right m r_le in
    let below : r * m + a % m < m * k = omega (arith, room, low) in
    let parts : a ≡ m * k * (a / m / k) + (r * m + a % m) =
      omega (arith, ap (λ (t : ℕ). t * m) (div-add-mod (a / m) k), div-add-mod a m) in
    ap (λ t. t % (m * k)) parts ∙ mul-add-mod_self_left (m * k) _ _ ∙ mod-eq_of_lt below

mod_double : (a m : ℕ) → 0 < m → a % (2 * m) ≡ a / 2 % m * 2 + a % 2
mod_double a m pos = mod-mul a 2 m (omega arith) pos

pub mod-pow-suc : (a n : ℕ) → a % 2 ^ suc n ≡ a / 2 % 2 ^ n * 2 + a % 2
mod-pow-suc a n =
    ap (λ t. a % t) {y = 2 * 2 ^ n} (omega (arith, pow-suc 2 n))
    ∙ mod_double a (2 ^ n) (one-le-pow n 2 (omega arith))

pub mod-pow-suc_top : (a n : ℕ) → a % 2 ^ suc n ≡ a / 2 ^ n % 2 * 2 ^ n + a % 2 ^ n
mod-pow-suc_top a n =
    ap (λ t. a % t) (pow-suc 2 n) ∙ mod-mul a (2 ^ n) 2 (one-le-pow n 2 (omega arith)) (omega arith)

-- `a & (2^k - 1)` keeps the low `k` bits.
pub bit_and_low : (k a : ℕ) → bit_and a (2 ^ k - 1) ≡ a % 2 ^ k
bit_and_low zero a = omega (arith, bit_and-zero a)
bit_and_low (suc k) a = omega (
  arith,
  pow-suc 2 k,
  one-le-pow k 2,
  bit_and_step a (2 ^ suc k - 1),
  ap (λ (t : ℕ). bit_and (a / 2) t) {x = (2 ^ suc k - 1) / 2} {y = 2 ^ k - 1}
      (omega (arith, pow-suc 2 k, one-le-pow k 2)),
  bit_and_low k (a / 2),
  mod_double a (2 ^ k) (one-le-pow k 2 (omega arith)),
  ap (λ (t : ℕ). a % t) {x = 2 ^ suc k} {y = 2 * 2 ^ k} (omega (arith, pow-suc 2 k)),
)

-- `a & (m << j)` is `m` applied to `a >> j`, shifted back.
pub bit_and-shl : (j a m : ℕ) → bit_and a (m * 2 ^ j) ≡ bit_and (a / 2 ^ j) m * 2 ^ j
bit_and-shl zero a m = rw mul-one (rw div-one (rw mul-one))
bit_and-shl (suc j) a m = omega (
  arith,
  double_pow m j,
  double_pow (bit_and (a / 2 ^ suc j) m) j,
  bit_and_step a (m * 2 ^ suc j),
  ap (λ (t : ℕ). bit_and (a / 2) t) {x = m * 2 ^ suc j / 2} {y = m * 2 ^ j}
      (omega (arith, double_pow m j)),
  bit_and-shl j (a / 2) m,
  ap (λ (t : ℕ). bit_and t m * 2 ^ j) (halves j a),
)
  where
    halves : (k x : ℕ) → x / 2 / 2 ^ k ≡ x / 2 ^ suc k
    halves k x = div-div-eq-div-mul x 2 (2 ^ k) ∙ ap (λ t. x / t) (omega (arith, pow-suc 2 k))

-- `a & (1 << j)`: the test of one bit.
pub bit_and_flag : (j a : ℕ) → bit_and a (2 ^ j) ≡ a / 2 ^ j % 2 * 2 ^ j
bit_and_flag j a =
    ap (bit_and a) {x = 2 ^ j} {y = 1 * 2 ^ j} (omega arith)
    ∙ bit_and-shl j a 1
    ∙ ap (λ t. t * 2 ^ j) (bit_and-one (a / 2 ^ j))

pub pow-add : (a m n : ℕ) → a ^ (m + n) ≡ a ^ m * a ^ n
pow-add a m zero = rw (add-zero, pow-zero, mul-one)
pow-add a m (suc n) = rw (add-suc, pow-suc, pow-suc, pow-add a m n) (mul_assoc (a ^ m) (a ^ n) a)

pub div-pow-add : (x m n : ℕ) → x / 2 ^ (m + n) ≡ x / 2 ^ m / 2 ^ n
div-pow-add x m n = rw pow-add (sym (div-div-eq-div-mul x (2 ^ m) (2 ^ n)))

pub pow_pos : (n : ℕ) → 0 < 2 ^ n
pow_pos n = one-le-pow n 2 (omega arith)

pub pow_lt : {i j : ℕ} → i < j → 2 ^ i < 2 ^ j
pow_lt {i} {j} h =
    let step : 2 ^ suc i ≤ 2 ^ j = pow-le-pow_right (omega arith) h in
    omega (arith, step, pow-suc 2 i, pow_pos i)

-- One bit, shifted inside a word, fits the word.
pub bit_shl_lt : (b i j : ℕ) → b ≤ 1 → i < j → b * 2 ^ i < 2 ^ j
bit_shl_lt b i j h k = omega (arith, mul-le-mul_right (2 ^ i) h, pow_lt k)

-- `a | (1 << k)` adds the bit where it is not set.
pub bit_or_flag : (k a : ℕ) → a / 2 ^ k % 2 ≡ 0 → bit_or a (2 ^ k) ≡ a + 2 ^ k
bit_or_flag zero a h = omega (arith, div-one a, bit_or_step a 1, bit_or-zero (a / 2))
bit_or_flag (suc k) a h = omega (
  arith,
  pow-suc 2 k,
  bit_or_step a (2 ^ suc k),
  ap (λ (t : ℕ). bit_or (a / 2) t) {x = 2 ^ suc k / 2} {y = 2 ^ k} (omega (arith, pow-suc 2 k)),
  bit_or_flag k (a / 2) (
      ap (λ t. t % 2)
        (div-div-eq-div-mul a 2 (2 ^ k)
          ∙ ap (λ t. a / t) {y = 2 ^ suc k} (omega (arith, pow-suc 2 k)))
      ∙ h),
)

-- `a & (1 << j) != 0`
abbrev pub bit_set : ℕ → ℕ → Bool
bit_set a flag = not (bit_and a flag == 0)
