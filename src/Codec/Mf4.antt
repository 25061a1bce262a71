-- ===== src/Codec/Mf4.antt =====
-- crates/cantools-codec/src/mf4.rs: the record of an event in an MF4 file. The slices of the record are
-- written in the order of their offsets, and byte 19 stays zero. `String::from_utf8_lossy` is a
-- parameter.
pub mod Flags
pub mod Layout
pub mod RoundTrip
pub mod Read
pub mod ReadBack
pub mod Blocks
pub mod Plan
pub mod Write
pub mod Addresses
pub mod Order
pub mod Parts
pub mod Linked
mod Tests
use cantools_rs.Prelude.{
  ℕ, ◌+◌, ◌-◌, ◌*◌, ◌/◌, ◌%◌, ◌^◌, min, bit_or, Bool, true, false, Option, none, some, List, [],
  ◌∷◌, ◌++◌, Result, ok, err, panic, ◌>>=◌, map_err, or_panic, Bytes, length, get_elem?, take, drop,
  replicate, ltb, leb, ◌==◌, if◌then◌else◌,
}
use mathlib.Core.Option
use cantools_rs.Prelude.Bits.{bit_set}
use cantools_rs.Prelude.Endian.{le_bytes, le_value}
use cantools_rs.Prelude.Int.{signed, pos_part}
use cantools_rs.Core.{
  Text, CoreError, CanId, CanFrame, FrameClass, data_frame, remote, error, Timestamp, rx, tx,
  CaptureEvent, Annotation, standard, extended, new_frame, new_event,
}
use cantools_rs.Codec.{FidelityNote, lit}
use cantools_rs.Codec.Blf.{timestamp_to_ns, flag_if, is_tx}

unfoldable pub ns_to_timestamp : ℕ → Timestamp
ns_to_timestamp ns = record { seconds = signed 64 (ns / 1_000_000_000); nanos = ns % 1_000_000_000 }

abbrev pub is_remote : FrameClass → Bool
is_remote remote = true
is_remote error = false
is_remote data_frame = false

abbrev pub is_error : FrameClass → Bool
is_error error = true
is_error remote = false
is_error data_frame = false

unfoldable pub record_flags : CaptureEvent → ℕ
record_flags event =
    let frame = event.frame in
    let flags = flag_if (is_tx event.direction) 0x01 in
    let flags = bit_or flags (flag_if (is_remote frame.class) 0x02) in
    let flags = bit_or flags (flag_if (is_error frame.class) 0x04) in
    let flags = bit_or flags (flag_if frame.fd 0x08) in
    let flags = bit_or flags (flag_if frame.fd_flags.bit_rate_switch 0x10) in
    let flags = bit_or flags (flag_if frame.fd_flags.error_state_indicator 0x20) in
    bit_or flags (flag_if frame.id.extended 0x40)

-- Bytes copied to the start of a zeroed field.
abbrev pub padded : ℕ → Bytes → Bytes
padded size bytes = bytes ++ replicate (size - length bytes) 0

abbrev pub name_of : CaptureEvent → Text
name_of event = Option.get_or event.interface.name []

unfoldable pub encode_record : {E : Type 0} → CaptureEvent → Result E Bytes
encode_record event = do
  ns ← timestamp_to_ns event.timestamp
  ok (
      le_bytes 8 ns
      ++ le_bytes 4 event.frame.id.raw
      ++ le_bytes 2 (record_flags event)
      ++ le_bytes 4 (Option.get_or event.interface.index 0)
      ++ min (length event.frame.payload) 64
        ∷ 0
        ∷ padded 32 (take (min (length (name_of event)) 32) (name_of event))
      ++ padded 64 (take (min (length event.frame.payload) 64) event.frame.payload))

-- The notes that `encode_record` pushes.
abbrev pub record_notes : ℕ → CaptureEvent → List FidelityNote
record_notes index event =
    (if ltb 32 (length (name_of event))
      then record {
        event_index = some index;
        field = "interface_name";
        detail = lit "MF4 export truncated interface name to 32 bytes" ∷ [];
      }
        ∷ []
      else [])
    ++ elim event.annotations [
      | [] ↦ []
      | ◌∷◌ a rest ↦
          record {
            event_index = some index;
            field = "annotations";
            detail = lit "MF4 export omits structured annotations in the bootstrap layout" ∷ [];
          }
          ∷ []
    ]

-- `&record[from..to]`
unfoldable pub sub_slice : {E : Type 0} → Bytes → ℕ → ℕ → Result E Bytes
sub_slice bytes from to =
    if ltb (length bytes) to then panic else ok (take (to - from) (drop from bytes))

-- The bytes before the first zero.
abbrev pub until_zero : Bytes → Bytes
until_zero [] = []
until_zero (b ∷ bs) = let rest = until_zero bs in if b == 0 then [] else b ∷ rest

abbrev pub record_class : ℕ → FrameClass
record_class flags =
    if bit_set flags 0x04 then error else if bit_set flags 0x02 then remote else data_frame

-- `raw_id as u16` keeps 16 bits.
abbrev pub record_id : ℕ → ℕ → Result CoreError CanId
record_id flags raw = if bit_set flags 0x40 then extended raw else standard (raw % 2 ^ 16)

-- No name for the empty text.
abbrev pub some_text : Text → Option Text
some_text [] = none
some_text (c ∷ cs) = some (c ∷ cs)

unfoldable pub decode_record :
    (from_utf8_lossy : Bytes → Text) → Bytes → Result CoreError CaptureEvent
unfolding sub_slice
decode_record from_utf8_lossy bytes = do
  ns ← sub_slice bytes 0 8
  raw_id ← sub_slice bytes 8 12
  flag_bytes ← sub_slice bytes 12 14
  ifindex ← sub_slice bytes 14 18
  len ← or_panic (get_elem? bytes 18)
  raw_name ← sub_slice bytes 20 52
  payload ← sub_slice bytes 52 (52 + min len 64)
  let flags = le_value flag_bytes
  let name = from_utf8_lossy (until_zero raw_name)
  id ← record_id flags (le_value raw_id)
  frame ←
      new_frame id (record_class flags) payload (bit_set flags 0x08) (record {
        bit_rate_switch = bit_set flags 0x10;
        error_state_indicator = bit_set flags 0x20;
      })
  ok (
      new_event (ns_to_timestamp (le_value ns))
        (record { name = some_text name; index = some (le_value ifindex) })
        (if bit_set flags 0x01 then tx else rx) frame)
