-- ===== src/Codec/Asc/RoundTrip.antt =====
-- A line that `write_asc` writes and `read_asc` reads.
use cantools_rs.Prelude.{
  ℕ, ◌+◌, ◌*◌, ◌/◌, ◌%◌, ◌≤◌, ◌<◌, Bool, true, false, ◌||◌, List, [], ◌∷◌, ◌++◌, All, IsByte,
  length, map, replicate, some, none, ok, ◌≡◌, ◌≢◌, refl, ap, sym, ◌∙◌, arith, append_assoc,
  take_all, length-map, ◌⊎◌,
}
use mathlib.Core.Option
use cantools_rs.Prelude.Int.{pos}
use cantools_rs.Prelude.Text.{codes}
use cantools_rs.Prelude.Hex.{format_hex}
use cantools_rs.Prelude.Decimal.{decimal, parse_decimal-decimal}
use cantools_rs.Core.{
  Text, CaptureEvent, CanFrame, FdFlags, FrameClass, data_frame, remote, error, Timestamp,
  new_event, max_payload,
}
use cantools_rs.Core.Validation.{IsValidFrame, new_frame_ok}
use cantools_rs.Codec.Asc.{
  Seconds, event, is_kind, is_skipped_line, parse_payload, timestamp_of, parse_event, parse_parts,
  read_line,
}
use cantools_rs.Codec.Asc.Blanks.{chunks, bytes_of, trim, split}
use cantools_rs.Codec.Asc.Write.{
  show_id, show_direction, show_kind, encode_hex_bytes, line_for, frame_line, event_line,
}
use cantools_rs.Codec.Asc.Words.{IsPrinted, IsWord, split-word, split-trim, split-pad, trim-starts}
use cantools_rs.Codec.Asc.Tokens.{
  decimal-IsWord, show_id-IsWord, parse_hex_id-show_id, show_direction-IsWord,
  direction_from_str-show_direction, split-encode_hex_bytes, parse_tokens-hex,
}

-- The text of a time is padded with blanks, begins with a digit or a minus, and is read as a number that
-- is rounded to the time's own nanoseconds, which are counted from the epoch.
pub record ShowsTime {F : Type 0} (seconds : Seconds F) (time : Timestamp) : Type 0 where
  pub pad : ℕ
  pub first : ℕ
  pub later : Text
  pub shown : seconds.show_seconds time ≡ replicate pad 32 ++ (first ∷ later)
  pub is_start : ((48 ≤ first) × (first ≤ 57)) ⊎ (first ≡ 45)
  pub printed : All IsPrinted later
  pub value : F
  pub read : seconds.parse_f64 (first ∷ later) ≡ ok value
  pub whole : ℕ
  pub nanos : ℕ
  pub small : nanos < 1_000_000_000
  pub is_time : time ≡ record { seconds = pos whole; nanos = nanos }
  pub rounded : seconds.to_nanos value ≡ pos (whole * 1_000_000_000 + nanos)

abbrev pub name_text : CaptureEvent → Text
name_text e = Option.get_or e.interface.name (codes "can0")

-- What is left of a frame: a remote frame loses its payload and its format, every frame the flags of
-- CAN FD.
abbrev pub logged_frame : CanFrame → FrameClass → CanFrame
logged_frame f remote = record {
  id = f.id;
  class = remote;
  payload = [];
  fd = false;
  fd_flags = record { bit_rate_switch = false; error_state_indicator = false };
}
logged_frame f class = record {
  id = f.id;
  class = class;
  payload = f.payload;
  fd = f.fd;
  fd_flags = record { bit_rate_switch = false; error_state_indicator = false };
}

abbrev pub as_logged : CaptureEvent → CaptureEvent
as_logged e = record {
  timestamp = e.timestamp;
  interface = record { name = some (name_text e); index = none };
  direction = e.direction;
  frame = logged_frame e.frame e.frame.class;
  annotations = [];
}

pub record IsLoggable {F : Type 0} (seconds : Seconds F) (e : CaptureEvent) : Type 0 where
  pub valid : IsValidFrame e.frame
  pub bytes : All IsByte e.frame.payload
  pub no_error : e.frame.class ≢ error
  pub name_is_word : IsWord (name_text e)
  pub shows : ShowsTime seconds e.timestamp

kind-IsWord : (class : FrameClass) (fd : Bool) → class ≢ error → IsWord (show_kind class fd)
kind-IsWord data_frame true h = record { printed = omega arith; some_char = omega arith }
kind-IsWord data_frame false h = record { printed = omega arith; some_char = omega arith }
kind-IsWord remote fd h = record { printed = omega arith; some_char = omega arith }
kind-IsWord error fd h = absurd (h refl)

first-IsPrinted : (c : ℕ) → ((48 ≤ c) × (c ≤ 57)) ⊎ (c ≡ 45) → IsPrinted c
first-IsPrinted c h = ground (arith, h)

time_line-is_frame :
    (c : ℕ) (rest : Text) → ((48 ≤ c) × (c ≤ 57)) ⊎ (c ≡ 45) → is_skipped_line (c ∷ rest) ≡ false
time_line-is_frame c rest h = ground (arith, h)

abbrev no_flags : FdFlags
no_flags = record { bit_rate_switch = false; error_state_indicator = false }

module _ {F : Type 0} (seconds : Seconds F) (e : CaptureEvent)
    (loggable : IsLoggable seconds e) where
  open loggable use {valid, bytes, no_error, name_is_word, shows}

  abbrev time_word : Text
  time_word = shows.first ∷ shows.later

  abbrev hex_words : List Text
  hex_words = map (format_hex 2) e.frame.payload

  abbrev len_word : Text
  len_word = decimal (length e.frame.payload)

  time_word-IsWord : IsWord time_word
  time_word-IsWord = record {
    printed = (first-IsPrinted shows.first shows.is_start, shows.printed);
    some_char = omega arith;
  }

  abbrev after_time : Text
  after_time =
      name_text e
      ++ (b' '
          ∷ (show_id e.frame.id
              ++ (b' '
                  ∷ (show_direction e.direction
                      ++ (b' '
                          ∷ (show_kind e.frame.class e.frame.fd
                              ++ (b' '
                                  ∷ (len_word ++ (b' ' ∷ encode_hex_bytes e.frame.payload)))))))))

  frame_line-time :
      frame_line seconds e ≡ replicate shows.pad 32 ++ (time_word ++ (b' ' ∷ after_time))
  unfolding frame_line
  frame_line-time =
      rw shows.shown (append_assoc (replicate shows.pad 32) time_word (b' ' ∷ after_time))

  split-frame_line :
      split (chunks 0 (frame_line seconds e))
      ≡ time_word
        ∷ name_text e
        ∷ show_id e.frame.id
        ∷ show_direction e.direction
        ∷ show_kind e.frame.class e.frame.fd
        ∷ len_word
        ∷ hex_words
  split-frame_line =
      let hexes : Text = encode_hex_bytes e.frame.payload in
      let from_len : Text = len_word ++ (b' ' ∷ hexes) in
      let from_kind : Text = show_kind e.frame.class e.frame.fd ++ (b' ' ∷ from_len) in
      let from_direction : Text = show_direction e.direction ++ (b' ' ∷ from_kind) in
      let from_id : Text = show_id e.frame.id ++ (b' ' ∷ from_direction) in
      rw
        (
          frame_line-time,
          split-pad shows.pad (time_word ++ (b' ' ∷ after_time)),
          split-word time_word after_time time_word-IsWord,
          split-word (name_text e) from_id name_is_word,
          split-word (show_id e.frame.id) from_direction (show_id-IsWord e.frame.id valid.id_fits),
          split-word (show_direction e.direction) from_kind (show_direction-IsWord e.direction),
          split-word (show_kind e.frame.class e.frame.fd) from_len
              (kind-IsWord e.frame.class e.frame.fd no_error),
          split-word len_word hexes (decimal-IsWord (length e.frame.payload)),
          split-encode_hex_bytes e.frame.payload bytes,
        )
        refl

  fits : length e.frame.payload ≤ 64
  fits = ground (arith, valid.payload_fits)

  parse_data :
      {IoError : Type 0} (kind : Text)
      → (is_kind "d" kind || is_kind "fd" kind) ≡ true
      → parse_payload {IoError = IoError} kind len_word hex_words ≡ ok e.frame.payload
  unfolding parse_payload
  parse_data {IoError} kind is_data =
      rw
        (
          is_data,
          parse_decimal-decimal (length e.frame.payload) (omega (arith, fits)),
          take_all (length e.frame.payload) hex_words
              (omega (arith, length-map (format_hex 2) e.frame.payload)),
        )
        (parse_tokens-hex {IoError = IoError} e.frame.payload bytes)

  time_back : timestamp_of (seconds.to_nanos shows.value) ≡ e.timestamp
  unfolding timestamp_of
  time_back =
      let total : ℕ = shows.whole * 1_000_000_000 + shows.nanos in
      let whole : total / 1_000_000_000 ≡ shows.whole = omega (arith, shows.small) in
      let nanos : total % 1_000_000_000 ≡ shows.nanos = omega (arith, shows.small) in
      rw (shows.rounded, whole, nanos) (sym shows.is_time)

  parse_event-kind :
      {IoError : Type 0} (class : FrameClass) (fd : Bool)
      → class ≢ error
      → length e.frame.payload ≤ max_payload fd
      → parse_event {IoError = IoError} seconds time_word
          (name_text e)
          (show_id e.frame.id)
          (show_direction e.direction)
          (show_kind class fd)
          len_word
          hex_words
        ≡ ok (record (as_logged e) { frame = logged_frame (record e.frame { fd = fd }) class })
  unfolding parse_event new_event
  parse_event-kind {IoError} data_frame true h within =
      rw
        (
          shows.read,
          parse_hex_id-show_id {IoError = IoError} e.frame.id valid.id_fits,
          direction_from_str-show_direction e.direction,
          parse_data {IoError = IoError} (codes "FD") refl,
          new_frame_ok e.frame.id data_frame e.frame.payload true no_flags within,
          time_back,
        )
        refl
  parse_event-kind {IoError} data_frame false h within =
      rw
        (
          shows.read,
          parse_hex_id-show_id {IoError = IoError} e.frame.id valid.id_fits,
          direction_from_str-show_direction e.direction,
          parse_data {IoError = IoError} (codes "d") refl,
          new_frame_ok e.frame.id data_frame e.frame.payload false no_flags within,
          time_back,
        )
        refl
  parse_event-kind {IoError} remote fd h within =
      rw
        (
          shows.read,
          parse_hex_id-show_id {IoError = IoError} e.frame.id valid.id_fits,
          direction_from_str-show_direction e.direction,
          new_frame_ok e.frame.id remote [] false no_flags (omega arith),
          time_back,
        )
        refl
  parse_event-kind error fd h within = absurd (h refl)

line_for-frame :
    (class : FrameClass) (comment line : Text) → class ≢ error → line_for class comment line ≡ line
line_for-frame data_frame comment line h = refl
line_for-frame remote comment line h = refl
line_for-frame error comment line h = absurd (h refl)

read_line-parts :
    {F IoError : Type 0} (seconds : Seconds F) (line trimmed : Text) (parts : List Text)
    → bytes_of (trim (chunks 0 line)) ≡ trimmed
    → is_skipped_line trimmed ≡ false
    → split (chunks 0 line) ≡ parts
    → read_line {IoError = IoError} seconds line ≡ parse_parts seconds trimmed parts
unfolding read_line
read_line-parts seconds line trimmed parts starts frame words =
    rw (starts, frame, split-trim (chunks 0 line), words) refl

-- For a valid data or remote frame of bytes, a name that is one word of printed ASCII (or none, where
-- `can0` stands for it), and a time from the epoch on whose text is read back as the time rounded to the
-- nanosecond, the line that `write_asc` writes is read by `read_asc` as one event: with the same time,
-- identifier and direction, and for a data frame with the same payload and format. The index of the
-- interface, the annotations and the flags of CAN FD are lost, and a remote frame loses its payload.
pub read_line-event_line :
    {F IoError : Type 0} (seconds : Seconds F) (e : CaptureEvent)
    → IsLoggable seconds e
    → read_line {IoError = IoError} seconds (event_line seconds e) ≡ ok (event (as_logged e))
read_line-event_line {F} {IoError} seconds e loggable =
    let shows = loggable.shows in
    let starts =
      trim-starts shows.pad shows.first (shows.later ++ (b' ' ∷ after_time seconds e loggable))
        (first-IsPrinted shows.first shows.is_start) in
    let trimmed : bytes_of (trim (chunks 0 (frame_line seconds e))) ≡ shows.first ∷ starts.0 =
      ap (λ (line : Text). bytes_of (trim (chunks 0 line))) (frame_line-time seconds e loggable)
      ∙ starts.1 in
    ap (read_line {IoError = IoError} seconds)
      (line_for-frame e.frame.class _ (frame_line seconds e) loggable.no_error)
    ∙ read_line-parts {IoError = IoError} seconds (frame_line seconds e) (shows.first ∷ starts.0) _
        trimmed (time_line-is_frame shows.first starts.0 shows.is_start)
        (split-frame_line seconds e loggable)
    ∙ rw
        (parse_event-kind seconds e loggable {IoError = IoError} e.frame.class e.frame.fd
          loggable.no_error loggable.valid.payload_fits)
        refl
