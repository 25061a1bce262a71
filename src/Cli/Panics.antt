-- ===== src/Cli/Panics.antt =====
-- Which payload texts `parse_hex_bytes` answers.
use cantools_rs.Prelude.{
  ℕ, ◌+◌, ◌*◌, ◌%◌, ◌^◌, ◌<◌, ◌≤◌, Bool, true, false, ◌∷◌, [], Result, ok, err, panic, ◌>>=◌,
  map_err, ◌≡◌, refl, arith, All, Bytes, length, filter_by, not, ◌==◌, Option, none, some,
  Bool-cases, inl, inr, ltb,
}
use cantools_rs.Prelude.Hex.{to_digit, push_digit, read_digits, from_str_radix}
use cantools_rs.Core.{Text}
use cantools_rs.Cli.{invalid_byte, is_separator, is_char_boundary, parse_pairs, parse_hex_bytes}

-- A value or an error.
abbrev pub Answers : {E A : Type 0} → Result E A → Type 0
Answers (ok a) = Unit {0}
Answers (err e) = Unit {0}
Answers panic = ⊥

abbrev pub IsAscii : ℕ → Type 0
IsAscii c = c < 0x80

Answers-bind :
    {E A B : Type 0} (r : Result E A) (f : A → Result E B)
    → Answers r
    → ((a : A) → Answers (f a))
    → Answers (r >>= f)
Answers-bind (ok a) f h then_answers = then_answers a
Answers-bind (err e) f h then_answers = tt
Answers-bind panic f h then_answers = elim h [ ]

Answers-map_err : {E F A : Type 0} (f : E → F) (r : Result E A) → Answers r → Answers (map_err f r)
Answers-map_err f (ok a) h = tt
Answers-map_err f (err e) h = tt
Answers-map_err f panic h = elim h [ ]

push_digit-Answers : (bound acc : ℕ) (d : Option ℕ) → Answers (push_digit bound acc d)
push_digit-Answers bound acc none = tt
push_digit-Answers bound acc (some d) = elim (Bool-cases (ltb (acc * 16 + d) bound)) [
  | inl e ↦ rw e tt
  | inr e ↦ rw e tt
]

read_digits-Answers : (bound acc : ℕ) (text : Bytes) → Answers (read_digits bound acc text)
read_digits-Answers bound acc [] = tt
read_digits-Answers bound acc (c ∷ cs) =
    Answers-bind (push_digit bound acc (to_digit c)) (λ next. read_digits bound next cs)
      (push_digit-Answers bound acc (to_digit c)) (λ next. read_digits-Answers bound next cs)

from_str_radix-Answers : (bound : ℕ) (text : Bytes) → Answers (from_str_radix bound text)
unfolding from_str_radix
from_str_radix-Answers bound [] = tt
from_str_radix-Answers bound (c ∷ []) = elim (Bool-cases (c == b'+')) [
  | inl e ↦ rw e tt
  | inr e ↦ rw e (read_digits-Answers bound 0 (c ∷ []))
]
from_str_radix-Answers bound (c ∷ d ∷ cs) = elim (Bool-cases (c == b'+')) [
  | inl e ↦ rw e (read_digits-Answers bound 0 (d ∷ cs))
  | inr e ↦ rw e (read_digits-Answers bound 0 (c ∷ d ∷ cs))
]

ascii-boundary : (text : Bytes) → All IsAscii text → is_char_boundary text ≡ true
ascii-boundary [] h = refl
ascii-boundary (c ∷ cs) h = ground (arith, h.0)

parse_pairs-Answers :
    (F : Type 0) (text : Bytes)
    → All IsAscii text
    → length text % 2 ≡ 0
    → Answers (parse_pairs {F = F} text)
unfolding parse_pairs
parse_pairs-Answers F [] h even = tt
parse_pairs-Answers F (c ∷ []) h even = absurd (omega (arith, even))
parse_pairs-Answers F (c ∷ d ∷ rest) (hc, h) even = rw (ascii-boundary rest h.1) (
    Answers-bind (map_err invalid_byte (from_str_radix (2 ^ 8) (c ∷ d ∷ [])))
      (λ byte. parse_pairs {F = F} rest >>= λ bytes. ok (byte ∷ bytes))
      (Answers-map_err invalid_byte (from_str_radix (2 ^ 8) (c ∷ d ∷ []))
        (from_str_radix-Answers (2 ^ 8) (c ∷ d ∷ [])))
      (λ byte.
        Answers-bind (parse_pairs {F = F} rest) (λ bytes. ok (byte ∷ bytes))
          (parse_pairs-Answers F rest h.1 (omega (arith, even))) (λ bytes. tt)))

filter_by-IsAscii :
    (test : ℕ → Bool) (text : Bytes) → All IsAscii text → All IsAscii (filter_by test text)
filter_by-IsAscii test [] h = tt
filter_by-IsAscii test (c ∷ cs) (hc, h) = elim (Bool-cases (test c)) [
  | inl e ↦ rw e (hc, filter_by-IsAscii test cs h)
  | inr e ↦ rw e (filter_by-IsAscii test cs h)
]

-- For an ASCII text, `parse_hex_bytes` returns bytes or an error: it does not panic.
pub parse_hex_bytes-Answers :
    (F : Type 0) (input : Text) → All IsAscii input → Answers (parse_hex_bytes {F = F} input)
unfolding parse_hex_bytes
parse_hex_bytes-Answers F input ascii =
    let compact : Text = filter_by (λ c. not (is_separator c)) input in
    elim (Bool-cases (length compact == 0)) [
      | inl e ↦ rw e tt
      | inr e ↦ elim (Bool-cases (length compact % 2 == 0)) [
        | inl even ↦
            rw (e, even)
              (parse_pairs-Answers F compact
                (filter_by-IsAscii (λ c. not (is_separator c)) input ascii) (ground (arith, even)))
        | inr odd ↦ rw (e, odd) tt
      ]
    ]

-- For a text of an ASCII character, a character of two bytes and another ASCII character, neither of the
-- ASCII ones a space or `_`, `parse_hex_bytes` panics: the slice of its first two bytes ends inside a
-- character.
pub parse_hex_bytes-panics :
    (F : Type 0) (c lead cont d : ℕ)
    → is_separator c ≡ false
    → is_separator d ≡ false
    → 0xc0 ≤ lead
    → 0x80 ≤ cont
    → cont < 0xc0
    → parse_hex_bytes {F = F} (c ∷ lead ∷ cont ∷ d ∷ []) ≡ panic
unfolding parse_hex_bytes parse_pairs
parse_hex_bytes-panics F c lead cont d sc sd high low_cont high_cont =
    let sl : is_separator lead ≡ false = ground (arith, high) in
    let sm : is_separator cont ≡ false = ground (arith, low_cont) in
    let inside : is_char_boundary (cont ∷ d ∷ []) ≡ false = ground (arith, low_cont, high_cont) in
    rw (sc, sl, sm, sd, inside) refl
