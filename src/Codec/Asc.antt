-- ===== src/Codec/Asc.antt =====
-- crates/cantools-codec/src/asc.rs: one line of an ASC log, written and read. The arithmetic and the texts
-- of `f64` are parameters.
pub mod Blanks
pub mod Write
pub mod File
pub mod Export
pub mod Words
pub mod Tokens
pub mod RoundTrip
pub mod WholeLog
pub mod Contents
mod Tests
use Prim.Native.String.{String}
use cantools_rs.Prelude.{
  ℕ, ◌+◌, ◌-◌, ◌*◌, ◌/◌, ◌%◌, ◌^◌, ◌≤◌, Bool, true, false, ◌&&◌, ◌||◌, Option, none, some, List, [],
  ◌∷◌, ◌++◌, map, Result, ok, err, panic, ◌>>=◌, map_err, or_panic, Bytes, length, take, drop,
  get_elem?, is_some, ltb, leb, ◌==◌, if◌then◌else◌,
}
use mathlib.Core.Option
use cantools_rs.Prelude.Int.{ℤ, pos, negsuc, sub_ℕ}
use cantools_rs.Prelude.Text.{codes, same_bytes}
use cantools_rs.Prelude.Hex.{
  IntError, empty, invalid_digit, pos_overflow, from_str_radix, format_hex,
}
use cantools_rs.Prelude.Decimal.{decimal, parse_decimal}
use cantools_rs.Core.{
  Text, CanId, FrameClass, data_frame, remote, error, Direction, rx, tx, Timestamp, CaptureEvent,
  Annotation, standard, extended, new_frame, new_event,
}
use cantools_rs.Codec.{CodecError, parse, core, FidelityNote, Piece, lit, arg}
use cantools_rs.Codec.Asc.Blanks.{Chunk, chunks, bytes_of, trim, split}

-- `parse::<f64>` with the text of its error, `(seconds * 1_000_000_000.0).round() as i64`, and
-- `{timestamp:>10.6}` of the seconds and nanoseconds.
pub record Seconds (F : Type 0) : Type 0 where
  pub parse_f64 : Text → Result Text F
  pub to_nanos : F → ℤ
  pub show_seconds : Timestamp → Text

abbrev pub direction_from_str : Text → Option Direction
direction_from_str raw =
    if same_bytes raw (codes "Rx")
    then some rx
    else if same_bytes raw (codes "Tx")
    then some tx
    else none

-- `Display` of `ParseIntError`
abbrev pub int_error_text : IntError → String
int_error_text empty = "cannot parse integer from empty string"
int_error_text invalid_digit = "invalid digit found in string"
int_error_text pos_overflow = "number too large to fit in target type"

-- A message with the part of the line and what was wrong with it.
abbrev pub invalid : {IoError : Type 0} → String → Text → Piece → CodecError IoError
invalid what part why = parse (lit what ∷ arg part ∷ lit ": " ∷ why ∷ [])

-- `raw.trim_end_matches('x')`
abbrev pub trim_x : Text → Text
trim_x [] = []
trim_x (c ∷ cs) = let rest = trim_x cs in if c == b'x' && length rest == 0 then [] else c ∷ rest

abbrev pub ends_with_x : Text → Bool
ends_with_x [] = false
ends_with_x (c ∷ []) = c == b'x'
ends_with_x (c ∷ d ∷ cs) = ends_with_x (d ∷ cs)

unfoldable pub parse_hex_id : {IoError : Type 0} → Text → Result (CodecError IoError) CanId
parse_hex_id raw = do
  value ←
      map_err (λ e. invalid "invalid ASC identifier " raw (lit (int_error_text e)))
        (from_str_radix (2 ^ 32) (trim_x raw))
  map_err core (
      if ends_with_x raw || ltb 3 (length (trim_x raw))
      then extended value
      else standard (value % 2 ^ 16))

-- `eq_ignore_ascii_case`
abbrev pub lower : ℕ → ℕ
lower c = if leb b'A' c && leb c b'Z' then c + 32 else c

abbrev pub is_kind : String → Text → Bool
is_kind kind text = same_bytes (map lower text) (codes kind)

abbrev pub starts_with : Text → Text → Bool
starts_with text prefix = same_bytes (take (length prefix) text) prefix

-- Lines that hold no frame.
abbrev pub is_skipped_line : Text → Bool
is_skipped_line line =
    length line == 0
    || (starts_with line (codes "date")
        || (starts_with line (codes "base")
            || (starts_with line (codes "Begin Triggerblock")
                || (starts_with line (codes "End TriggerBlock") || starts_with line (codes "//")))))

abbrev pub parse_tokens : {IoError : Type 0} → List Text → Result (CodecError IoError) Bytes
parse_tokens [] = ok []
parse_tokens (token ∷ rest) = do
  byte ←
      map_err (λ e. invalid "invalid ASC data byte " token (lit (int_error_text e)))
        (from_str_radix (2 ^ 8) token)
  bytes ← parse_tokens rest
  ok (byte ∷ bytes)

unfoldable pub parse_payload :
    {IoError : Type 0} → (kind len : Text) → List Text → Result (CodecError IoError) Bytes
parse_payload kind len tokens =
    if is_kind "d" kind || is_kind "fd" kind
    then (do
      declared_len ←
          map_err (λ e. invalid "invalid ASC dlc " len (lit (int_error_text e)))
            (parse_decimal (2 ^ 64) len)
      parse_tokens (take declared_len tokens))
    else ok []

-- `nanos_total / 1_000_000_000` rounds towards zero; `rem_euclid` is not negative.
unfoldable pub timestamp_of : ℤ → Timestamp
timestamp_of (pos n) = record { seconds = pos (n / 1_000_000_000); nanos = n % 1_000_000_000 }
timestamp_of (negsuc n) = record {
  seconds = sub_ℕ 0 ((n + 1) / 1_000_000_000);
  nanos = (1_000_000_000 - (n + 1) % 1_000_000_000) % 1_000_000_000;
}

abbrev pub class_of : Text → FrameClass
class_of kind =
    if is_kind "r" kind then remote else if is_kind "error" kind then error else data_frame

-- What a line gives: nothing, a note, or an event.
pub data Line : Type 0 where
  skipped : Line
  noted : FidelityNote → Line
  event : CaptureEvent → Line

module _ {F IoError : Type 0} (seconds : Seconds F) where
  unfoldable pub parse_event :
      (time name id direction kind len : Text)
      → List Text
      → Result (CodecError IoError) CaptureEvent
  unfolding parse_hex_id parse_payload
  parse_event time name id direction kind len tokens = do
    value ← map_err (λ e. invalid "invalid ASC timestamp " time (arg e)) (seconds.parse_f64 time)
    parsed ← parse_hex_id id
    way ← elim (direction_from_str direction) [
      | none ↦ err (parse (lit "invalid ASC direction " ∷ arg direction ∷ []))
      | some d ↦ ok d
    ]
    payload ← parse_payload kind len tokens
    frame ← map_err core (
        new_frame parsed (class_of kind) payload (is_kind "fd" kind)
          (record { bit_rate_switch = false; error_state_indicator = false }))
    ok (
        new_event (timestamp_of (seconds.to_nanos value))
          (record { name = some name; index = none }) way frame)

  -- A line of at least six parts.
  abbrev pub parse_parts : (trimmed : Text) → List Text → Result (CodecError IoError) Line
  parse_parts trimmed (time ∷ name ∷ id ∷ direction ∷ kind ∷ len ∷ tokens) =
      parse_event time name id direction kind len tokens >>= λ parsed. ok (event parsed)
  parse_parts trimmed parts = ok (
      noted (record {
        event_index = none;
        field = "line";
        detail = lit "skipped unrecognized ASC line: " ∷ arg trimmed ∷ [];
      }))

  unfoldable pub read_line : Text → Result (CodecError IoError) Line
  unfolding parse_event parse_hex_id parse_payload
  read_line line =
      let trimmed = trim (chunks 0 line) in
      if is_skipped_line (bytes_of trimmed)
      then ok skipped
      else parse_parts (bytes_of trimmed) (split trimmed)
