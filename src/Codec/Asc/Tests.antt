-- ===== src/Codec/Asc/Tests.antt =====
-- Concrete runs of the ASC codec, after the test of crates/cantools-codec/src/asc.rs.
use cantools_rs.Prelude.{
  ◌++◌, ℕ, ◌+◌, ◌*◌, ◌≡◌, refl, false, some, List, [], ◌∷◌, Result, ok, map, arith, inl,
}
use cantools_rs.Prelude.Int.{pos, negsuc, neg_part}
use cantools_rs.Prelude.Text.{codes}
use cantools_rs.Prelude.Effect.{Step}
use cantools_rs.Core.{Text, CaptureEvent, data_frame, rx}
use cantools_rs.Codec.Asc.{Seconds, timestamp_of}
use cantools_rs.Codec.Mf4.Write.{FileWriter}
use cantools_rs.Codec.Asc.Export.{all_notes, write_asc}
use cantools_rs.Codec.Asc.Contents.{unlines, Appends, write_asc-log_lines}
use cantools_rs.Codec.Asc.File.{read_asc}
use cantools_rs.Codec.Asc.RoundTrip.{IsLoggable, as_logged}
use cantools_rs.Codec.Asc.WholeLog.{log_lines, read_asc-log_lines, timestamp_of_negative}

abbrev event : CaptureEvent
event = record {
  timestamp = record { seconds = pos 1; nanos = 0 };
  interface = record { name = some (codes "vcan0"); index = some 1 };
  direction = rx;
  frame = record {
    id = record { raw = 0x123; extended = false };
    class = data_frame;
    payload = 0x11 ∷ 0x22 ∷ 0x33 ∷ [];
    fd = false;
    fd_flags = record { bit_rate_switch = false; error_state_indicator = false };
  };
  annotations = [];
}

-- Every time is one second.
abbrev one_second : Seconds ℕ
one_second = record {
  parse_f64 = λ text. ok 1;
  to_nanos = λ value. pos (value * 1_000_000_000);
  show_seconds = λ time. codes "  1.000000";
}

event-IsLoggable : IsLoggable one_second event
event-IsLoggable = record {
  valid = record { id_fits = omega arith; payload_fits = omega arith };
  bytes = omega arith;
  no_error = λ same. cc same;
  name_is_word = record { printed = omega arith; some_char = omega arith };
  shows = record {
    pad = 2;
    first = 49;
    later = codes ".000000";
    shown = refl;
    is_start = inl (omega arith, omega arith);
    printed = omega arith;
    value = 1;
    read = refl;
    whole = 1;
    nanos = 0;
    small = omega arith;
    is_time = refl;
    rounded = refl;
  };
}

abbrev one_log : Step ℕ ℕ (List (Result ℕ Text))
one_log s = (ok (map ok (log_lines one_second (event ∷ []))), s)

read_asc-log_lines_example :
    read_asc {IoError = ℕ} one_second (λ (path : ℕ). one_log) 0 5
    ≡ (ok (record { events = as_logged event ∷ []; notes = [] }), 5)
read_asc-log_lines_example =
    read_asc-log_lines {IoError = ℕ} one_second (λ (path : ℕ). one_log) 0 5 5 (event ∷ []) refl
      (event-IsLoggable, tt)

-- Half a second before the epoch.
timestamp_of_negative_example :
    (timestamp_of (negsuc 499_999_999)).nanos + 500_000_000
    ≡ neg_part (timestamp_of (negsuc 499_999_999)).seconds * 1_000_000_000 + 1_000_000_000
timestamp_of_negative_example = timestamp_of_negative 499_999_999 (omega arith)

-- A file whose contents are the state.
abbrev text_writer : FileWriter Text ℕ ℕ
text_writer = record {
  Handle = ℕ;
  create = λ path s. (ok 3, []);
  write_all = λ file text s. (ok tt, s ++ text);
  flush = λ file s. (ok tt, s);
}

abbrev text_writer-Appends : Appends text_writer 3
text_writer-Appends = record {
  contents = λ s. s;
  append = λ text s. s ++ text;
  writes = λ text s. refl;
  flushes = λ s. refl;
  contents_append = λ text s. refl;
}

write_asc-log_lines_example :
    ((write_asc one_second text_writer 0 (event ∷ []) (1 ∷ [])).0
      ≡ ok (record { notes = all_notes 0 (event ∷ []) }))
    × ((write_asc one_second text_writer 0 (event ∷ []) (1 ∷ [])).1
        ≡ unlines (log_lines one_second (event ∷ [])))
write_asc-log_lines_example =
    write_asc-log_lines one_second text_writer 3 text_writer-Appends 0 (1 ∷ []) [] (event ∷ []) refl
      refl
