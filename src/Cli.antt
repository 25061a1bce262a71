-- ===== src/Cli.antt =====
-- crates/cantools-cli/src/main.rs: how the `cantools` command reads and shows frames. A text is its UTF-8
-- bytes, and a slice of it that ends inside a character panics. The errors of `anyhow` are constructors,
-- one for each message.
pub mod Frames
pub mod Panics
pub mod World
pub mod Replay
pub mod Schedule
pub mod Expect
pub mod Deadline
pub mod Report
pub mod Sequence
pub mod SequenceEnds
pub mod Commands
mod Tests
use cantools_rs.Prelude.{
  ℕ, ◌+◌, ◌/◌, ◌%◌, ◌^◌, ◌-◌, Bool, true, false, ◌||◌, ◌&&◌, not, List, [], ◌∷◌, ◌++◌, Result, ok,
  err, panic, ◌>>=◌, map_err, Bytes, length, filter_by, map, ltb, leb, ◌==◌, if◌then◌else◌,
}
use cantools_rs.Prelude.Hex.{IntError, from_str_radix, format_hex}
use cantools_rs.Prelude.Text.{codes}
use cantools_rs.Core.{Text, CoreError, CanId, CanFrame, data_frame, standard, extended, new_frame}

-- `F` stands for the errors of the other crates that `?` passes on.
pub data CliError (F : Type 0) : Type 0 where
  odd_digits : CliError F
  invalid_byte : IntError → CliError F
  invalid_identifier : (input : Text) → IntError → CliError F
  core : CoreError → CliError F
  timed_out : (id : Text) → CliError F
  failed : F → CliError F

abbrev pub is_separator : ℕ → Bool
is_separator c = c == b' ' || c == b'_'

-- A character starts here, or the text ends.
abbrev pub is_char_boundary : Bytes → Bool
is_char_boundary [] = true
is_char_boundary (c ∷ cs) = ltb c 0x80 || leb 0xc0 c

-- `compact[offset..offset + 2]` and its byte, for each even offset.
unfoldable pub parse_pairs : {F : Type 0} → Bytes → Result (CliError F) Bytes
parse_pairs [] = ok []
parse_pairs (c ∷ []) = panic
parse_pairs (c ∷ d ∷ rest) =
    let later = parse_pairs rest in
    if is_char_boundary rest
    then (do
      byte ← map_err invalid_byte (from_str_radix (2 ^ 8) (c ∷ d ∷ []))
      bytes ← later
      ok (byte ∷ bytes))
    else panic

unfoldable pub parse_hex_bytes : {F : Type 0} → Text → Result (CliError F) Bytes
parse_hex_bytes input =
    let compact = filter_by (λ c. not (is_separator c)) input in
    if length compact == 0
    then ok []
    else if length compact % 2 == 0
    then parse_pairs compact
    else err odd_digits

-- `trim_start_matches("0x")` takes off every prefix.
abbrev pub trim_prefixes : Text → Text
trim_prefixes [] = []
trim_prefixes (c ∷ []) = c ∷ []
trim_prefixes (c ∷ d ∷ rest) =
    let later = trim_prefixes rest in if c == b'0' && d == b'x' then later else c ∷ d ∷ rest

unfoldable pub parse_id : {F : Type 0} → Text → Result (CliError F) CanId
parse_id input = do
  raw ← map_err (invalid_identifier input) (from_str_radix (2 ^ 32) (trim_prefixes input))
  map_err core (if leb raw 0x7ff then standard raw else extended raw)

unfoldable pub build_frame :
    {F : Type 0} → (id payload : Text) → (fd brs esi : Bool) → Result (CliError F) CanFrame
unfolding parse_id parse_hex_bytes
build_frame id payload fd brs esi = do
  parsed ← parse_id id
  bytes ← parse_hex_bytes payload
  map_err core (
      new_frame parsed data_frame bytes fd
        (record { bit_rate_switch = brs; error_state_indicator = esi }))

abbrev pub render_id : CanId → Text
render_id id = if id.extended then format_hex 8 id.raw else format_hex 3 id.raw

-- `.join(" ")`
abbrev pub join_spaces : List Text → Text
join_spaces [] = []
join_spaces (text ∷ []) = text
join_spaces (text ∷ next ∷ rest) = text ++ b' ' ∷ join_spaces (next ∷ rest)

abbrev pub render_bytes : Bytes → Text
render_bytes payload = join_spaces (map (format_hex 2) payload)

-- `{:>2}` of a length below 100, which a frame's is.
abbrev pub decimal_2 : ℕ → Text
decimal_2 n = (if ltb n 10 then b' ' else b'0' + n / 10) ∷ (b'0' + n % 10) ∷ []

abbrev pub fd_suffix : Bool → Text
fd_suffix fd = if fd then codes " fd" else []

unfoldable pub render_frame : CanFrame → Text
render_frame frame =
    render_id frame.id
    ++ codes " ["
    ++ decimal_2 (length frame.payload)
    ++ codes "] "
    ++ render_bytes frame.payload
    ++ fd_suffix frame.fd
