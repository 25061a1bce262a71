-- ===== src/Dbc/Tests.antt =====
-- Concrete runs of the decoder, on the database of the tests of crates/cantools-dbc/src/lib.rs with
-- whole factors.
use cantools_rs.Prelude.{
  ℕ, ◌≡◌, refl, false, none, some, List, [], ◌∷◌, map, find, ◌==◌, ok, err, Bytes, arith,
}
use cantools_rs.Prelude.Int.{ℤ, pos}
use cantools_rs.Prelude.Float.{whole}
use cantools_rs.Core.{Text, CanFrame, data_frame}
use cantools_rs.Dbc.Decoder.{
  ByteOrder, little_endian, big_endian, ValueType, signed_value, unsigned_value, MultiplexIndicator,
  plain, multiplexor, multiplexed_signal, CanDbc, LoadedDbc, ambiguous_message, frame_message_id,
  extract_raw, extract_signal, decode_signals, decode_frame,
}
use cantools_rs.Dbc.Extract.{too_short, reading, extract_raw-field, extract_signal-reading}
use cantools_rs.Dbc.Signals.{kept, dropped, short, decode_signals_partition}
use cantools_rs.Dbc.Frames.{decoded, decode_frame-unmatched, decode_frame-matched}

record SampleSignal : Type 0 where
  name : Text
  start : ℕ
  size : ℕ
  order : ByteOrder
  value_type : ValueType
  offset : ℤ
  indicator : MultiplexIndicator

record SampleMessage : Type 0 where
  id : ℕ
  name : Text
  signals : List SampleSignal

-- A database is its list of messages; the switch of each is the signal named `M`.
abbrev sample : CanDbc ℤ
sample = record {
  Dbc = List SampleMessage;
  ParseError = ℕ;
  try_from = λ text. err 0;
  Message = SampleMessage;
  MessageId = ℕ;
  Signal = SampleSignal;
  ValDescription = Text;
  messages = λ d. d;
  message_id = λ m. m.id;
  raw = λ id. id;
  message_name = λ m. m.name;
  signals = λ m. m.signals;
  signal_name = λ s. s.name;
  start_bit = λ s. s.start;
  size = λ s. s.size;
  byte_order = λ s. s.order;
  value_type = λ s. s.value_type;
  factor = λ s. pos 1;
  offset = λ s. s.offset;
  unit = λ s. [];
  multiplexer_indicator = λ s. s.indicator;
  message_multiplexor_switch = λ d id. some (some mode);
  value_descriptions_for_signal = λ d id name. none;
  description_id = λ d. pos 0;
  description = λ d. d;
}
  where
    mode : SampleSignal
    mode = record {
      name = b'M' ∷ [];
      start = 16;
      size = 8;
      order = little_endian;
      value_type = unsigned_value;
      offset = pos 0;
      indicator = multiplexor;
    }

abbrev speed : SampleSignal
speed = record {
  name = b'S' ∷ [];
  start = 0;
  size = 16;
  order = little_endian;
  value_type = unsigned_value;
  offset = pos 0;
  indicator = plain;
}

abbrev temp : SampleSignal
temp = record {
  name = b'T' ∷ [];
  start = 31;
  size = 8;
  order = big_endian;
  value_type = signed_value;
  offset = pos 40;
  indicator = multiplexed_signal 1;
}

abbrev message : SampleMessage
message = record { id = 291; name = b'E' ∷ []; signals = speed ∷ temp ∷ [] }

abbrev database : LoadedDbc whole sample
database = record { name = b'v' ∷ []; dbc = message ∷ [] }

abbrev payload : Bytes
payload = 0x10 ∷ 0x27 ∷ 0x01 ∷ 0xd0 ∷ []

abbrev frame : CanFrame
frame = record {
  id = record { raw = 291; extended = false };
  class = data_frame;
  payload = payload;
  fd = false;
  fd_flags = record { bit_rate_switch = false; error_state_indicator = false };
}

extract_raw-field_example : extract_raw whole sample payload speed ≡ ok 10000
extract_raw-field_example = extract_raw-field whole sample payload speed (omega arith) (omega arith)

extract_signal-reading_example :
    extract_signal whole sample database 291 temp (1 ∷ [])
    ≡ err (too_short whole sample (1 ∷ []) temp)
extract_signal-reading_example =
    extract_signal-reading whole sample database 291 (1 ∷ []) temp (omega arith) (omega arith)

decode_signals_partition_example :
    decode_signals whole sample database 291 (some (pos 1)) payload (speed ∷ temp ∷ [])
    ≡ ok (
      map
          (reading whole sample database 291 payload)
          (kept whole sample (some (pos 1)) payload (speed ∷ temp ∷ [])),
      map
          (short whole sample payload)
          (dropped whole sample (some (pos 1)) payload (speed ∷ temp ∷ [])),
    )
decode_signals_partition_example =
    decode_signals_partition whole sample database 291 (some (pos 1)) payload (speed ∷ temp ∷ [])
      (omega arith) (omega arith)

decode_frame-unmatched_example :
    decode_frame whole sample (database ∷ database ∷ []) frame
    ≡ ok (record {
      message = none;
      diagnostics = ambiguous_message 291 ((b'v' ∷ []) ∷ (b'v' ∷ []) ∷ []) ∷ [];
    })
unfolding frame_message_id
decode_frame-unmatched_example =
    decode_frame-unmatched whole sample (database ∷ database ∷ []) frame (ground arith)

decode_frame-matched_example :
    (m : SampleMessage) × (find (λ x. x.id == 291) (message ∷ []) ≡ some m)
    × (decode_frame whole sample (database ∷ []) frame
        ≡ ok (decoded whole sample database m payload))
unfolding frame_message_id
decode_frame-matched_example =
    decode_frame-matched whole sample (database ∷ []) frame database (omega arith) (omega arith)
      refl
