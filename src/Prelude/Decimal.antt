-- ===== src/Prelude/Decimal.antt =====
-- Decimal texts, as `{}` writes an integer and `str::parse::<usize>` reads it.
use Prim.Native.Nat.{ℕ, zero, suc, ◌+◌, ◌-◌, ◌*◌, ◌/◌, ◌%◌, ◌^◌, ◌≤◌, ◌<◌}
use mathlib.Core.Path.{◌≡◌, refl, ap, ◌∙◌}
use mathlib.Core.Bool.{false, ◌&&◌}
use mathlib.Core.Option.{Option, none, some}
use mathlib.Core.List.{[], ◌∷◌, ◌++◌}
use mathlib.Core.Logic.{inl, inr}
use native.Mathlib.Nat.{pow-suc}
use native.Mathlib.Omega.{arith}
use cantools_rs.Prelude.Lists.{Bytes, length, All, All-append, length-append}
use cantools_rs.Prelude.Outcome.{Result, ok, err, ◌>>=◌}
use cantools_rs.Prelude.Tests.{ltb, leb, ◌==◌, lt→ltb, le→ltb_false, lt-cases, if◌then◌else◌}
use cantools_rs.Prelude.Hex.{IntError, empty, invalid_digit, pos_overflow, bind_same}

-- The digits of a number below `10 ^ fuel`.
abbrev pub digits : (fuel n : ℕ) → Bytes
digits zero n = []
digits (suc fuel) n =
    let high = digits fuel (n / 10) in (if ltb n 10 then [] else high) ++ (b'0' + n % 10) ∷ []

-- `{}` of an integer of up to 64 bits.
unfoldable pub decimal : ℕ → Bytes
decimal n = digits 20 n

-- `char::to_digit(10)`
abbrev pub to_decimal : ℕ → Option ℕ
to_decimal c = if leb b'0' c && leb c b'9' then some (c - b'0') else none

abbrev pub push_decimal : (bound acc : ℕ) → Option ℕ → Result IntError ℕ
push_decimal bound acc none = err invalid_digit
push_decimal bound acc (some d) =
    if ltb (acc * 10 + d) bound then ok (acc * 10 + d) else err pos_overflow

abbrev pub read_decimal : (bound acc : ℕ) → Bytes → Result IntError ℕ
read_decimal bound acc [] = ok acc
read_decimal bound acc (c ∷ cs) =
    push_decimal bound acc (to_decimal c) >>= λ next. read_decimal bound next cs

-- Of an unsigned type with the values below a bound.
unfoldable pub parse_decimal : (bound : ℕ) → Bytes → Result IntError ℕ
parse_decimal bound [] = err empty
parse_decimal bound (c ∷ []) =
    if c == b'+' then err invalid_digit else read_decimal bound 0 (c ∷ [])
parse_decimal bound (c ∷ d ∷ cs) =
    if c == b'+' then read_decimal bound 0 (d ∷ cs) else read_decimal bound 0 (c ∷ d ∷ cs)

abbrev pub IsDigit : ℕ → Type 0
IsDigit c = (48 ≤ c) × (c ≤ 57)

pub digits-IsDigit : (fuel n : ℕ) → All IsDigit (digits fuel n)
digits-IsDigit zero n = tt
digits-IsDigit (suc fuel) n = elim (lt-cases n 10) [
  | inl small ↦ rw (lt→ltb n 10 small) ((omega arith, omega arith), tt)
  | inr large ↦ rw (le→ltb_false n 10 large) (
      All-append IsDigit (digits fuel (n / 10)) ((b'0' + n % 10) ∷ [])
        (digits-IsDigit fuel (n / 10)) ((omega arith, omega arith), tt))
]

pub length-digits : (fuel n : ℕ) → 0 < length (digits (suc fuel) n)
length-digits fuel n =
    omega
      (arith, length-append (if ltb n 10 then [] else digits fuel (n / 10)) ((b'0' + n % 10) ∷ []))

read_decimal-append :
    (bound acc : ℕ) (xs ys : Bytes)
    → read_decimal bound acc (xs ++ ys)
      ≡ (read_decimal bound acc xs >>= λ next. read_decimal bound next ys)
read_decimal-append bound acc [] ys = refl
read_decimal-append bound acc (c ∷ cs) ys =
    bind_same (push_decimal bound acc (to_decimal c)) (λ next. read_decimal bound next (cs ++ ys))
      (λ next. read_decimal bound next cs) (λ next. read_decimal bound next ys)
      (λ next. read_decimal-append bound next cs ys)

last_digit :
    (bound high low : ℕ)
    → low < 10
    → high * 10 + low < bound
    → push_decimal bound high (to_decimal (b'0' + low)) ≡ ok (high * 10 + low)
last_digit bound high low h inside = ground arith

read_decimal-digits :
    (bound fuel n : ℕ) → n < 10 ^ fuel → n < bound → read_decimal bound 0 (digits fuel n) ≡ ok n
read_decimal-digits bound zero n small inside = ap ok {x = 0} (omega arith)
read_decimal-digits bound (suc fuel) n small inside =
    let whole : n / 10 * 10 + n % 10 ≡ n = omega arith in
    elim (lt-cases n 10) [
      | inl below ↦
          rw (lt→ltb n 10 below, last_digit bound 0 (n % 10) (omega arith) (omega (arith, inside)))
            (ap ok {x = 0 * 10 + n % 10} {y = n} (omega arith))
      | inr above ↦
          rw
            (
              le→ltb_false n 10 above,
              read_decimal-append bound 0 (digits fuel (n / 10)) ((b'0' + n % 10) ∷ []),
              read_decimal-digits bound fuel (n / 10) (omega (arith, pow-suc 10 fuel))
                  (omega arith),
              last_digit bound (n / 10) (n % 10) (omega arith) (omega (arith, inside)),
            )
            (ap ok whole)
    ]

digit-no_sign : (c : ℕ) → IsDigit c → (c == b'+') ≡ false
digit-no_sign c h = ground arith

parse_decimal-digits :
    (bound : ℕ) (text : Bytes)
    → 0 < length text
    → All IsDigit text
    → parse_decimal bound text ≡ read_decimal bound 0 text
unfolding parse_decimal
parse_decimal-digits bound [] h all = absurd (omega arith)
parse_decimal-digits bound (c ∷ []) h (digit, rest) = rw (digit-no_sign c digit) refl
parse_decimal-digits bound (c ∷ d ∷ cs) h (digit, rest) = rw (digit-no_sign c digit) refl

-- A number of 64 bits is read again from its digits.
pub parse_decimal-decimal : (n : ℕ) → n < 2 ^ 64 → parse_decimal (2 ^ 64) (decimal n) ≡ ok n
unfolding decimal
parse_decimal-decimal n small =
    parse_decimal-digits (2 ^ 64) (digits 20 n) (length-digits 19 n) (digits-IsDigit 20 n)
    ∙ read_decimal-digits (2 ^ 64) 20 n (omega (arith, small)) small
