-- ===== src/Prelude/Hex.antt =====
-- Hexadecimal texts, as `format!` writes them (`{:X}` padded with zeros) and `from_str_radix(_, 16)`
-- reads them: an optional `+`, then digits of either case; a character that is no digit is found before
-- the overflow of the product.
use Prim.Native.Nat.{ℕ, zero, suc, ◌+◌, ◌-◌, ◌*◌, ◌/◌, ◌%◌, ◌^◌, ◌≤◌, ◌<◌, max}
use mathlib.Core.Path.{◌≡◌, refl, ap, ◌∙◌}
use mathlib.Core.Logic.{◌⊎◌}
use mathlib.Core.Bool.{false, ◌&&◌}
use mathlib.Core.Option.{Option, none, some}
use mathlib.Core.List.{[], ◌∷◌, ◌++◌}
use native.Mathlib.Nat.{pow-suc}
use native.Mathlib.Omega.{arith}
use cantools_rs.Prelude.Lists.{Bytes, length, All, All-append, length-append}
use cantools_rs.Prelude.Outcome.{Result, ok, err, panic, ◌>>=◌}
use cantools_rs.Prelude.Tests.{ltb, leb, ◌==◌, lt→ltb, if◌then◌else◌}

abbrev pub hex_digit : ℕ → ℕ
hex_digit n = if ltb n 10 then b'0' + n else b'A' + (n - 10)

-- The last digits of a number.
abbrev pub hex : (width n : ℕ) → Bytes
hex zero n = []
hex (suc width) n = hex width (n / 16) ++ hex_digit (n % 16) ∷ []

-- How many digits a number of 32 bits has.
abbrev pub digit_count : (fuel n : ℕ) → ℕ
digit_count zero n = 0
digit_count (suc fuel) n = let more = digit_count fuel (n / 16) in if n == 0 then 0 else suc more

-- `{:0<width>X}` of a `u32` or a `u8`.
unfoldable pub format_hex : (width n : ℕ) → Bytes
format_hex width n = hex (max width (digit_count 8 n)) n

-- `char::to_digit(16)`
abbrev pub to_digit : ℕ → Option ℕ
to_digit c =
    if leb b'0' c && leb c b'9'
    then some (c - b'0')
    else if leb b'A' c && leb c b'F'
    then some (c - b'A' + 10)
    else if leb b'a' c && leb c b'f'
    then some (c - b'a' + 10)
    else none

pub data IntError : Type 0 where
  empty invalid_digit pos_overflow : IntError

-- One digit more, below a bound.
abbrev pub push_digit : (bound acc : ℕ) → Option ℕ → Result IntError ℕ
push_digit bound acc none = err invalid_digit
push_digit bound acc (some d) =
    if ltb (acc * 16 + d) bound then ok (acc * 16 + d) else err pos_overflow

abbrev pub read_digits : (bound acc : ℕ) → Bytes → Result IntError ℕ
read_digits bound acc [] = ok acc
read_digits bound acc (c ∷ cs) =
    push_digit bound acc (to_digit c) >>= λ next. read_digits bound next cs

-- Of an unsigned type with the values below a bound.
unfoldable pub from_str_radix : (bound : ℕ) → Bytes → Result IntError ℕ
from_str_radix bound [] = err empty
from_str_radix bound (c ∷ []) =
    if c == b'+' then err invalid_digit else read_digits bound 0 (c ∷ [])
from_str_radix bound (c ∷ d ∷ cs) =
    if c == b'+' then read_digits bound 0 (d ∷ cs) else read_digits bound 0 (c ∷ d ∷ cs)

to_digit-hex_digit : (n : ℕ) → n < 16 → to_digit (hex_digit n) ≡ some n
to_digit-hex_digit n h = ground arith

pub hex_digit-cases :
    (n : ℕ)
    → n < 16
    → ((48 ≤ hex_digit n) × (hex_digit n ≤ 57)) ⊎ ((65 ≤ hex_digit n) × (hex_digit n ≤ 70))
hex_digit-cases n h = ground arith

-- The characters `0` to `9` and `A` to `F`.
abbrev pub IsUpperHex : ℕ → Type 0
IsUpperHex c = ((48 ≤ c) × (c ≤ 57)) ⊎ ((65 ≤ c) × (c ≤ 70))

pub hex-IsUpperHex : (width n : ℕ) → All IsUpperHex (hex width n)
hex-IsUpperHex zero n = tt
hex-IsUpperHex (suc width) n =
    All-append IsUpperHex (hex width (n / 16)) (hex_digit (n % 16) ∷ [])
      (hex-IsUpperHex width (n / 16)) (hex_digit-cases (n % 16) (omega arith), tt)

pub length-hex : (width n : ℕ) → length (hex width n) ≡ width
length-hex zero n = refl
length-hex (suc width) n =
    omega (
      arith,
      length-append (hex width (n / 16)) (hex_digit (n % 16) ∷ []),
      length-hex width (n / 16),
    )

pub bind_same :
    {E A B C : Type 0} (r : Result E A) (f : A → Result E C) (g : A → Result E B)
    (h : B → Result E C)
    → ((a : A) → f a ≡ (g a >>= h))
    → (r >>= f) ≡ ((r >>= g) >>= h)
bind_same (ok a) f g h same = same a
bind_same (err e) f g h same = refl
bind_same panic f g h same = refl

pub read_digits-append :
    (bound acc : ℕ) (xs ys : Bytes)
    → read_digits bound acc (xs ++ ys)
      ≡ (read_digits bound acc xs >>= λ next. read_digits bound next ys)
read_digits-append bound acc [] ys = refl
read_digits-append bound acc (c ∷ cs) ys =
    bind_same (push_digit bound acc (to_digit c)) (λ next. read_digits bound next (cs ++ ys))
      (λ next. read_digits bound next cs) (λ next. read_digits bound next ys)
      (λ next. read_digits-append bound next cs ys)

pub read_digits-hex :
    (bound width n : ℕ) → n < 16 ^ width → n < bound → read_digits bound 0 (hex width n) ≡ ok n
read_digits-hex bound zero n small inside = ap ok {x = 0} (omega arith)
read_digits-hex bound (suc width) n small inside =
    let whole : n / 16 * 16 + n % 16 ≡ n = omega arith in
    rw
      (
        read_digits-append bound 0 (hex width (n / 16)) (hex_digit (n % 16) ∷ []),
        read_digits-hex bound width (n / 16) (omega (arith, pow-suc 16 width)) (omega arith),
        to_digit-hex_digit (n % 16) (omega arith),
      )
      (rw (whole, lt→ltb n bound inside) refl)

digit-no_sign : (c : ℕ) → IsUpperHex c → (c == b'+') ≡ false
digit-no_sign c h = ground arith

-- A text of digits has no sign.
pub from_str_radix-digits :
    (bound : ℕ) (text : Bytes)
    → 0 < length text
    → All IsUpperHex text
    → from_str_radix bound text ≡ read_digits bound 0 text
unfolding from_str_radix
from_str_radix-digits bound [] h hex = absurd (omega arith)
from_str_radix-digits bound (c ∷ []) h (digit, rest) = rw (digit-no_sign c digit) refl
from_str_radix-digits bound (c ∷ d ∷ cs) h (digit, rest) = rw (digit-no_sign c digit) refl

-- A number in its digits, with zeros before them, is read again.
pub from_str_radix-hex :
    (bound width n : ℕ)
    → 0 < width
    → n < 16 ^ width
    → n < bound
    → from_str_radix bound (hex width n) ≡ ok n
from_str_radix-hex bound width n some_digit small inside =
    from_str_radix-digits bound (hex width n) (omega (arith, length-hex width n, some_digit))
      (hex-IsUpperHex width n)
    ∙ read_digits-hex bound width n small inside

digit_count_le : (fuel width n : ℕ) → n < 16 ^ width → digit_count fuel n ≤ width
digit_count_le zero width n small = omega arith
digit_count_le (suc fuel) zero n small = ground arith
digit_count_le (suc fuel) (suc width) n small =
    ground (arith, digit_count_le fuel width (n / 16) (omega (arith, pow-suc 16 width)))

-- A number that fits the width has that many digits.
pub format_hex-hex : (width n : ℕ) → n < 16 ^ width → format_hex width n ≡ hex width n
unfolding format_hex
format_hex-hex width n small =
    ap (λ w. hex w n) {x = max width (digit_count 8 n)} {y = width}
      (omega (arith, digit_count_le 8 width n small))
