-- ===== src/Cli/Frames.antt =====
-- Frames that are shown and read again.
use cantools_rs.Prelude.{
  ℕ, ◌+◌, ◌%◌, ◌/◌, ◌^◌, ◌<◌, ◌≤◌, true, false, ◌∷◌, [], ◌++◌, ok, ◌≡◌, refl, ◌∙◌, ap, arith, All,
  IsByte, Bytes, length, filter_by, not, ltb, Bool-cases, inl, inr, append_assoc, ◌==◌,
}
use cantools_rs.Prelude.Text.{codes}
use cantools_rs.Prelude.Hex.{
  hex, IsUpperHex, hex-IsUpperHex, from_str_radix-hex, format_hex-hex, hex_digit,
}
use cantools_rs.Core.{Text, CanId, CanFrame, data_frame, standard, extended}
use cantools_rs.Core.Validation.{IsValidId, IsValidFrame, new_frame_ok}
use cantools_rs.Cli.{
  is_separator, is_char_boundary, parse_pairs, parse_hex_bytes, trim_prefixes, parse_id,
  build_frame, render_id, render_bytes, decimal_2, fd_suffix, render_frame,
}

-- The digits of a payload with nothing between them.
abbrev digits_of : Bytes → Text
digits_of [] = []
digits_of (b ∷ bs) = hex 2 b ++ digits_of bs

digits_of-boundary : (payload : Bytes) → is_char_boundary (digits_of payload) ≡ true
digits_of-boundary [] = refl
digits_of-boundary (b ∷ bs) = ground (arith, (hex-IsUpperHex 2 b).0)

parse_pairs-digits_of :
    {F : Type 0} (payload : Bytes)
    → All IsByte payload
    → parse_pairs {F = F} (digits_of payload) ≡ ok payload
unfolding parse_pairs
parse_pairs-digits_of [] h = refl
parse_pairs-digits_of {F} (b ∷ bs) (byte, h) =
    rw
      (
        digits_of-boundary bs,
        from_str_radix-hex (2 ^ 8) 2 b (omega arith) (omega (arith, byte)) (omega (arith, byte)),
        parse_pairs-digits_of {F = F} bs h,
      )
      refl

not_separator : (c : ℕ) → IsUpperHex c → is_separator c ≡ false
not_separator c h = ground arith

filter_by-hex :
    (b : ℕ) (rest : Bytes)
    → filter_by (λ c. not (is_separator c)) (hex 2 b ++ rest)
      ≡ hex 2 b ++ filter_by (λ c. not (is_separator c)) rest
filter_by-hex b rest =
    let digits = hex-IsUpperHex 2 b in
    rw
      (
        not_separator (hex_digit (b / 16 % 16)) digits.0,
        not_separator (hex_digit (b % 16)) digits.1.0,
      )
      refl

filter_by-render_bytes :
    (payload : Bytes)
    → All IsByte payload
    → filter_by (λ c. not (is_separator c)) (render_bytes payload) ≡ digits_of payload
filter_by-render_bytes [] h = refl
filter_by-render_bytes (b ∷ []) (byte, h) =
    rw (format_hex-hex 2 b (omega (arith, byte))) (filter_by-hex b [])
filter_by-render_bytes (b ∷ next ∷ rest) (byte, h) = rw (format_hex-hex 2 b (omega (arith, byte))) (
    filter_by-hex b (b' ' ∷ render_bytes (next ∷ rest))
    ∙ ap (λ xs. hex 2 b ++ xs) (filter_by-render_bytes (next ∷ rest) h))

trim_prefixes-digits : (text : Text) → All IsUpperHex text → trim_prefixes text ≡ text
trim_prefixes-digits [] h = refl
trim_prefixes-digits (c ∷ []) h = refl
trim_prefixes-digits (c ∷ d ∷ rest) (hc, h) = ground (arith, h.0)

length-digits_of : (payload : Bytes) → length (digits_of payload) ≡ length payload + length payload
length-digits_of [] = refl
length-digits_of (b ∷ bs) = omega (arith, length-digits_of bs)

parse_hex_bytes-render_bytes :
    {F : Type 0} (payload : Bytes)
    → All IsByte payload
    → parse_hex_bytes {F = F} (render_bytes payload) ≡ ok payload
unfolding parse_hex_bytes
parse_hex_bytes-render_bytes {F} [] h = refl
parse_hex_bytes-render_bytes {F} (b ∷ bs) h =
    let some_digit : (length (digits_of (b ∷ bs)) == 0) ≡ false = ground arith in
    let even : (length (digits_of (b ∷ bs)) % 2 == 0) ≡ true =
      ground (arith, length-digits_of (b ∷ bs)) in
    rw
      (
        filter_by-render_bytes (b ∷ bs) h,
        some_digit,
        even,
        parse_pairs-digits_of {F = F} (b ∷ bs) h,
      )
      refl

parse_id-hex :
    {F : Type 0} (width raw : ℕ)
    → 0 < width
    → raw < 16 ^ width
    → raw ≤ 0x1fff_ffff
    → parse_id {F = F} (hex width raw) ≡ ok (record { raw = raw; extended = ltb 0x7ff raw })
unfolding parse_id standard extended
parse_id-hex width raw some_digit small valid =
    rw
      (
        trim_prefixes-digits (hex width raw) (hex-IsUpperHex width raw),
        from_str_radix-hex (2 ^ 32) width raw some_digit small (omega (arith, valid)),
      )
      (ground (arith, valid))

-- What is shown of an identifier gives it back, but the format by its value alone.
parse_id-render_id :
    {F : Type 0} (id : CanId)
    → IsValidId id
    → parse_id {F = F} (render_id id) ≡ ok (record { raw = id.raw; extended = ltb 0x7ff id.raw })
parse_id-render_id {F} id valid = elim (Bool-cases id.extended) [
  | inl e ↦
      let small : id.raw ≤ 0x1fff_ffff = ground (arith, valid, e) in
      rw (e, format_hex-hex 8 id.raw (omega (arith, small)))
        (parse_id-hex {F = F} 8 id.raw (omega arith) (omega (arith, small)) small)
  | inr e ↦
      let small : id.raw ≤ 0x7ff = ground (arith, valid, e) in
      rw (e, format_hex-hex 3 id.raw (omega (arith, small)))
        (parse_id-hex {F = F} 3 id.raw (omega arith) (omega (arith, small)) (omega (arith, small)))
]

-- For a valid data frame of bytes, the identifier and the payload that `render_frame` shows, with the
-- frame's flags, make `build_frame` return a frame with the same number, payload and flags. Its
-- identifier is extended exactly when the number is above 0x7ff, so the frame is the same unless it has
-- an extended identifier of at most 0x7ff, which comes back as a standard one.
pub build_frame-render_frame :
    {F : Type 0} (frame : CanFrame)
    → IsValidFrame frame
    → All IsByte frame.payload
    → frame.class ≡ data_frame
    → (render_frame frame
        ≡ render_id frame.id
          ++ (codes " ["
              ++ (decimal_2 (length frame.payload)
                  ++ (codes "] " ++ (render_bytes frame.payload ++ fd_suffix frame.fd)))))
      × (build_frame {F = F}
            (render_id frame.id)
            (render_bytes frame.payload)
            frame.fd
            frame.fd_flags.bit_rate_switch
            frame.fd_flags.error_state_indicator
          ≡ ok (record frame {
            id = record { raw = frame.id.raw; extended = ltb 0x7ff frame.id.raw };
          }))
unfolding render_frame build_frame
build_frame-render_frame {F} frame valid bytes class = (
  simp append_assoc,
  rw
      (
        parse_id-render_id {F = F} frame.id valid.id_fits,
        parse_hex_bytes-render_bytes {F = F} frame.payload bytes,
        new_frame_ok (record { raw = frame.id.raw; extended = ltb 0x7ff frame.id.raw }) data_frame
            frame.payload frame.fd frame.fd_flags valid.payload_fits,
        class,
      )
      refl,
)
