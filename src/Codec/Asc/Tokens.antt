-- ===== src/Codec/Asc/Tokens.antt =====
-- The words of a line: each is a word, and is read as what it was written from.
use cantools_rs.Prelude.{
  ℕ, ◌%◌, ◌^◌, ◌≤◌, ◌<◌, true, false, [], ◌∷◌, ◌++◌, All, All-append, Bytes, IsByte, map, ok, some,
  ◌≡◌, refl, ap, ◌∙◌, arith, ◌==◌, Bool-cases, inl, inr, length-append,
}
use cantools_rs.Prelude.Text.{codes}
use cantools_rs.Prelude.Hex.{
  hex, format_hex, IsUpperHex, hex-IsUpperHex, length-hex, from_str_radix-hex, format_hex-hex,
}
use cantools_rs.Prelude.Decimal.{decimal, digits, IsDigit, digits-IsDigit, length-digits}
use cantools_rs.Core.{Text, CanId, Direction, rx, tx}
use cantools_rs.Core.Validation.{IsValidId, standard_ok, extended_ok}
use cantools_rs.Codec.Asc.{trim_x, ends_with_x, parse_hex_id, parse_tokens, direction_from_str}
use cantools_rs.Codec.Asc.Blanks.{chunks, split}
use cantools_rs.Codec.Asc.Write.{show_id, show_direction, encode_hex_bytes}
use cantools_rs.Codec.Asc.Words.{IsPrinted, IsWord, split-word, split-last}

upper_hex-IsPrinted : (text : Text) → All IsUpperHex text → All IsPrinted text
upper_hex-IsPrinted [] h = tt
upper_hex-IsPrinted (c ∷ cs) (digit, h) = (ground (arith, digit), upper_hex-IsPrinted cs h)

digits-IsPrinted : (text : Text) → All IsDigit text → All IsPrinted text
digits-IsPrinted [] h = tt
digits-IsPrinted (c ∷ cs) ((low, high), h) =
    ((omega (arith, low), omega (arith, high)), digits-IsPrinted cs h)

pub decimal-IsWord : (n : ℕ) → IsWord (decimal n)
unfolding decimal
decimal-IsWord n = record {
  printed = digits-IsPrinted (digits 20 n) (digits-IsDigit 20 n);
  some_char = length-digits 19 n;
}

hex-IsWord : (width n : ℕ) → 0 < width → IsWord (hex width n)
hex-IsWord width n h = record {
  printed = upper_hex-IsPrinted (hex width n) (hex-IsUpperHex width n);
  some_char = omega (arith, length-hex width n, h);
}

trim_x-hex : (text : Text) → All IsUpperHex text → trim_x text ≡ text
trim_x-hex [] h = refl
trim_x-hex (c ∷ cs) (digit, h) =
    let no_x : (c == b'x') ≡ false = ground (arith, digit) in rw (trim_x-hex cs h, no_x) refl

trim_x-suffix : (text : Text) → All IsUpperHex text → trim_x (text ++ codes "x") ≡ text
trim_x-suffix [] h = refl
trim_x-suffix (c ∷ cs) (digit, h) =
    let no_x : (c == b'x') ≡ false = ground (arith, digit) in rw (trim_x-suffix cs h, no_x) refl

ends_with_x-hex : (text : Text) → All IsUpperHex text → ends_with_x text ≡ false
ends_with_x-hex [] h = refl
ends_with_x-hex (c ∷ []) (digit, h) = ground (arith, digit)
ends_with_x-hex (c ∷ d ∷ cs) (digit, h) = ends_with_x-hex (d ∷ cs) h

ends_with_x-suffix : (text : Text) → ends_with_x (text ++ codes "x") ≡ true
ends_with_x-suffix [] = refl
ends_with_x-suffix (c ∷ []) = refl
ends_with_x-suffix (c ∷ d ∷ cs) = ends_with_x-suffix (d ∷ cs)

pub show_id-IsWord : (id : CanId) → IsValidId id → IsWord (show_id id)
show_id-IsWord id valid = elim (Bool-cases id.extended) [
  | inl e ↦
      let small : id.raw ≤ 0x1fff_ffff = ground (arith, valid, e) in
      rw (e, format_hex-hex 8 id.raw (omega (arith, small)))
        (record {
          printed =
              All-append IsPrinted (hex 8 id.raw) (codes "x")
                (upper_hex-IsPrinted (hex 8 id.raw) (hex-IsUpperHex 8 id.raw))
                ((omega arith, omega arith), tt);
          some_char = omega (arith, length-append (hex 8 id.raw) (codes "x"));
        })
  | inr e ↦
      let small : id.raw ≤ 0x7ff = ground (arith, valid, e) in
      rw (e, format_hex-hex 3 id.raw (omega (arith, small))) (hex-IsWord 3 id.raw (omega arith))
]

pub parse_hex_id-show_id :
    {IoError : Type 0} (id : CanId)
    → IsValidId id
    → parse_hex_id {IoError = IoError} (show_id id) ≡ ok id
unfolding parse_hex_id
parse_hex_id-show_id id valid = elim (Bool-cases id.extended) [
  | inl e ↦
      let small : id.raw ≤ 0x1fff_ffff = ground (arith, valid, e) in
      rw
        (
          e,
          format_hex-hex 8 id.raw (omega (arith, small)),
          trim_x-suffix (hex 8 id.raw) (hex-IsUpperHex 8 id.raw),
          ends_with_x-suffix (hex 8 id.raw),
          from_str_radix-hex (2 ^ 32) 8 id.raw (omega arith) (omega (arith, small))
              (omega (arith, small)),
        )
        (rw (extended_ok id.raw small) refl)
  | inr e ↦
      let small : id.raw ≤ 0x7ff = ground (arith, valid, e) in
      let low : id.raw % 2 ^ 16 ≡ id.raw = omega (arith, small) in
      rw
        (
          e,
          format_hex-hex 3 id.raw (omega (arith, small)),
          trim_x-hex (hex 3 id.raw) (hex-IsUpperHex 3 id.raw),
          ends_with_x-hex (hex 3 id.raw) (hex-IsUpperHex 3 id.raw),
          from_str_radix-hex (2 ^ 32) 3 id.raw (omega arith) (omega (arith, small))
              (omega (arith, small)),
        )
        (rw (low, standard_ok id.raw small) refl)
]

pub show_direction-IsWord : (d : Direction) → IsWord (show_direction d)
show_direction-IsWord rx = record { printed = omega arith; some_char = omega arith }
show_direction-IsWord tx = record { printed = omega arith; some_char = omega arith }

pub direction_from_str-show_direction :
    (d : Direction) → direction_from_str (show_direction d) ≡ some d
direction_from_str-show_direction rx = refl
direction_from_str-show_direction tx = refl

pub split-encode_hex_bytes :
    (payload : Bytes)
    → All IsByte payload
    → split (chunks 0 (encode_hex_bytes payload)) ≡ map (format_hex 2) payload
unfolding encode_hex_bytes
split-encode_hex_bytes [] h = refl
split-encode_hex_bytes (b ∷ []) (byte, h) =
    rw (format_hex-hex 2 b (omega (arith, byte)))
      (split-last (hex 2 b) (hex-IsWord 2 b (omega arith)))
split-encode_hex_bytes (b ∷ next ∷ rest) (byte, h) = rw (format_hex-hex 2 b (omega (arith, byte))) (
    split-word (hex 2 b) (encode_hex_bytes (next ∷ rest)) (hex-IsWord 2 b (omega arith))
    ∙ ap (λ ws. hex 2 b ∷ ws) (split-encode_hex_bytes (next ∷ rest) h))

pub parse_tokens-hex :
    {IoError : Type 0} (payload : Bytes)
    → All IsByte payload
    → parse_tokens {IoError = IoError} (map (format_hex 2) payload) ≡ ok payload
parse_tokens-hex [] h = refl
parse_tokens-hex {IoError} (b ∷ bs) (byte, h) =
    rw
      (
        format_hex-hex 2 b (omega (arith, byte)),
        from_str_radix-hex (2 ^ 8) 2 b (omega arith) (omega (arith, byte)) (omega (arith, byte)),
        parse_tokens-hex {IoError = IoError} bs h,
      )
      refl
