-- ===== src/Codec/Mf4/RoundTrip.antt =====
-- An event that is written as an MF4 record and read again.
use cantools_rs.Prelude.{
  ℕ, zero, suc, ◌-◌, ◌/◌, ◌%◌, ◌^◌, ◌≤◌, ◌<◌, min, some, [], ◌∷◌, ◌++◌, ok, Bytes, All, length,
  take, replicate, if◌then◌else◌, arith, ◌≡◌, ◌≢◌, refl, take_all, take-append, length-append,
  length-replicate, lt→ltb, length-take,
}
use mathlib.Core.Option
use cantools_rs.Prelude.Endian.{le_bytes, le_value, le_value-le_bytes}
use cantools_rs.Prelude.Int.{pos, signed, pos_part}
use cantools_rs.Core.{
  CoreError, Text, new_event, CaptureEvent, Direction, rx, tx, standard, extended,
}
use cantools_rs.Core.Validation.{IsValidFrame, new_frame_ok}
use cantools_rs.Codec.Blf.{timestamp_to_ns, is_tx}
use cantools_rs.Codec.Blf.Written.{total_ns}
use cantools_rs.Codec.Mf4.{
  record_flags, padded, name_of, encode_record, until_zero, record_id, some_text, ns_to_timestamp,
  decode_record,
}
use cantools_rs.Codec.Mf4.Layout.{layout_of, length-layout, slice-name, slice-payload, slice-low}
use cantools_rs.Codec.Mf4.Flags.{record_flags-Reads, record_class-Reads, record_flags-lt}

-- What is left of an event: the index 0 where the interface has none, no name in place of an empty
-- one, no annotations, and no time before the epoch.
abbrev pub as_recorded : CaptureEvent → CaptureEvent
as_recorded event = record {
  timestamp = record event.timestamp { seconds = pos (pos_part event.timestamp.seconds) };
  interface = record {
    name = some_text (name_of event);
    index = some (Option.get_or event.interface.index 0);
  };
  direction = event.direction;
  frame = event.frame;
  annotations = [];
}

-- An event that a record holds: a valid frame, a time that fits, and a name of at most 32 bytes
-- without a zero, and an index of 32 bits.
pub record IsRecordable (event : CaptureEvent) : Type 0 where
  pub valid : IsValidFrame event.frame
  pub small_nanos : event.timestamp.nanos < 1_000_000_000
  pub small_time : total_ns event < 2 ^ 64
  pub short_name : length (name_of event) ≤ 32
  pub no_zero : All (λ b. b ≢ 0) (name_of event)
  pub small_index : Option.get_or event.interface.index 0 < 2 ^ 32

until_zero-padded :
    (name : Bytes) (n : ℕ) → All (λ b. b ≢ 0) name → until_zero (name ++ replicate n 0) ≡ name
until_zero-padded [] zero h = refl
until_zero-padded [] (suc n) h = refl
until_zero-padded (b ∷ bs) n (hb, h) = ground (arith, until_zero-padded bs n h)

length-padded : (size : ℕ) (bytes : Bytes) → length bytes ≤ size → length (padded size bytes) ≡ size
length-padded size bytes h = omega (
  arith,
  length-append bytes (replicate (size - length bytes) 0),
  length-replicate {A = ℕ} (size - length bytes) 0,
)

abbrev pub name_field : CaptureEvent → Bytes
name_field event = padded 32 (take (min (length (name_of event)) 32) (name_of event))

abbrev pub payload_field : CaptureEvent → Bytes
payload_field event = padded 64 (take (min (length event.frame.payload) 64) event.frame.payload)

direction_back : (d : Direction) → (if is_tx d then tx else rx) ≡ d
direction_back tx = refl
direction_back rx = refl

-- The record of an event.
abbrev pub written : CaptureEvent → Bytes
written event =
    layout_of (total_ns event) event.frame.id.raw (record_flags event)
      (Option.get_or event.interface.index 0) (min (length event.frame.payload) 64)
      (name_field event) (payload_field event)

pub encode_record-written :
    {E : Type 0} (event : CaptureEvent)
    → total_ns event < 2 ^ 64
    → encode_record {E = E} event ≡ ok (written event)
unfolding encode_record timestamp_to_ns
encode_record-written event small = rw (lt→ltb (total_ns event) (2 ^ 64) small) refl

module _ (event : CaptureEvent) (recordable : IsRecordable event) where
  fits : length event.frame.payload ≤ 64
  fits = ground (arith, recordable.valid.payload_fits)

  whole_name : take (min (length (name_of event)) 32) (name_of event) ≡ name_of event
  whole_name = take_all _ (name_of event) (omega (arith, recordable.short_name))

  whole_payload :
      take (min (length event.frame.payload) 64) event.frame.payload ≡ event.frame.payload
  whole_payload = take_all _ event.frame.payload (omega (arith, fits))

  length-name_field : length (name_field event) ≡ 32
  length-name_field =
      length-padded 32 (take (min (length (name_of event)) 32) (name_of event))
        (omega (arith, length-take (min (length (name_of event)) 32) (name_of event)))

  length-payload_field : length (payload_field event) ≡ 64
  length-payload_field =
      length-padded 64 (take (min (length event.frame.payload) 64) event.frame.payload)
        (omega (arith, length-take (min (length event.frame.payload) 64) event.frame.payload))

  length-written : length (written event) ≡ 116
  length-written =
      length-layout (total_ns event) event.frame.id.raw (record_flags event)
        (Option.get_or event.interface.index 0) (min (length event.frame.payload) 64)
        (name_field event) (payload_field event) length-name_field length-payload_field

  name_back : until_zero (name_field event) ≡ name_of event
  name_back =
      rw whole_name
        (until_zero-padded (name_of event) (32 - length (name_of event)) recordable.no_zero)

  payload_back :
      take (min (min (length event.frame.payload) 64) 64) (payload_field event)
      ≡ event.frame.payload
  payload_back =
      let n : min (min (length event.frame.payload) 64) 64 ≡ length event.frame.payload =
        omega (arith, fits) in
      rw (n, whole_payload) (take-append event.frame.payload _)

  id_back : record_id (record_flags event) event.frame.id.raw ≡ ok event.frame.id
  unfolding standard extended
  id_back = rw (record_flags-Reads event).same_format (ground (arith, recordable.valid.id_fits))

  time_back : ns_to_timestamp (total_ns event) ≡ (as_recorded event).timestamp
  unfolding ns_to_timestamp
  time_back =
      let seconds : signed 64 (total_ns event / 1_000_000_000)
          ≡ pos (pos_part event.timestamp.seconds) =
        ground (arith, recordable.small_nanos, recordable.small_time) in
      let nanos : total_ns event % 1_000_000_000 ≡ event.timestamp.nanos =
        omega (arith, recordable.small_nanos) in
      rw (seconds, nanos) refl

  decode_record-written :
      (from_utf8_lossy : Bytes → Text)
      → from_utf8_lossy (name_of event) ≡ name_of event
      → decode_record from_utf8_lossy (written event) ≡ ok (as_recorded event)
  unfolding decode_record new_event
  decode_record-written from_utf8_lossy utf8 =
      let raw : ℕ = event.frame.id.raw in
      let index : ℕ = Option.get_or event.interface.index 0 in
      let len : ℕ = min (length event.frame.payload) 64 in
      let low =
        slice-low (total_ns event) raw (record_flags event) index len (name_field event)
          (payload_field event) length-name_field length-payload_field in
      let raw_back : le_value (le_bytes 4 raw) ≡ raw =
        le_value-le_bytes 4 raw (ground (arith, recordable.valid.id_fits)) in
      let reads = record_flags-Reads event in
      rw
        (
          low.0,
          low.1,
          low.2,
          low.3,
          slice-name (total_ns event) raw (record_flags event) index len (name_field event)
              (payload_field event) length-name_field length-payload_field,
          slice-payload (total_ns event) raw (record_flags event) index len (name_field event)
              (payload_field event) length-name_field length-payload_field (min len 64)
              (omega arith),
          le_value-le_bytes 8 (total_ns event) (omega (arith, recordable.small_time)),
          raw_back,
          le_value-le_bytes 2 (record_flags event) (record_flags-lt event),
          le_value-le_bytes 4 index (omega (arith, recordable.small_index)),
          name_back,
          utf8,
          payload_back,
          id_back,
          record_class-Reads event (record_flags event) reads,
          reads.same_fd,
          reads.same_brs,
          reads.same_esi,
          reads.same_direction,
          new_frame_ok event.frame.id event.frame.class event.frame.payload event.frame.fd
              event.frame.fd_flags recordable.valid.payload_fits,
          time_back,
          direction_back event.direction,
        )
        refl

-- For an event with a valid frame, nanoseconds below 10^9, a time from the epoch on that fits 64 bits
-- of nanoseconds, an index of 32 bits and a name of at most 32 bytes without a zero that is valid
-- UTF-8, `encode_record` does not panic, and `decode_record` makes of the record the same event: frame,
-- direction, time and interface, CAN FD flags and all 64 bytes included. Only the annotations are lost,
-- a missing index comes back as 0, an empty name as none, and a time before the epoch loses its seconds.
pub decode_record-encode_record :
    {E : Type 0} (from_utf8_lossy : Bytes → Text) (event : CaptureEvent)
    → IsRecordable event
    → from_utf8_lossy (name_of event) ≡ name_of event
    → (bytes : Bytes) × (encode_record {E = E} event ≡ ok bytes)
      × (length bytes ≡ 116)
      × (decode_record from_utf8_lossy bytes ≡ ok (as_recorded event))
decode_record-encode_record from_utf8_lossy event recordable utf8 = (
  written event,
  encode_record-written event recordable.small_time,
  length-written event recordable,
  decode_record-written event recordable from_utf8_lossy utf8,
)

-- What `encode_record` returns is one record of 116 bytes that `decode_record` reads.
pub decode_record-of_encoded :
    (from_utf8_lossy : Bytes → Text) (event : CaptureEvent) (bytes : Bytes)
    → IsRecordable event
    → from_utf8_lossy (name_of event) ≡ name_of event
    → encode_record {E = CoreError} event ≡ ok bytes
    → (length bytes ≡ 116) × (decode_record from_utf8_lossy bytes ≡ ok (as_recorded event))
decode_record-of_encoded from_utf8_lossy event bytes recordable utf8 encoded =
    let same : bytes ≡ written event =
      cc (encoded, encode_record-written {E = CoreError} event recordable.small_time) in
    rw same
      (length-written event recordable, decode_record-written event recordable from_utf8_lossy utf8)
