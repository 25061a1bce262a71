-- ===== src/Codec/Blf.antt =====
-- crates/cantools-codec/src/blf.rs: the BLF capture format. The crate `ablf`, which reads the objects
-- of a file, and `binrw`, which writes a struct, are parameters, as is the file system. Arithmetic on
-- a `u64` panics where it overflows, as in a build with overflow checks.
pub mod Objects
pub mod File
pub mod Layout
pub mod Contents
pub mod Written
pub mod Read
mod Tests
use cantools_rs.Prelude.{
  ℕ, ◌+◌, ◌-◌, ◌*◌, ◌/◌, ◌%◌, ◌^◌, min, max, bit_and, bit_or, Bool, true, false, Option, none, some,
  List, [], ◌∷◌, ◌++◌, Result, ok, err, panic, ◌>>=◌, map_err, Bytes, length, take, drop, replicate,
  ltb, ◌==◌, not, if◌then◌else◌,
}
use mathlib.Core.Option
use cantools_rs.Prelude.Bits.{bit_set}
use cantools_rs.Prelude.Int.{ℤ, signed, pos_part}
use cantools_rs.Core.{
  Text, CoreError, CanId, CanFrame, FrameClass, data_frame, remote, error, FdFlags, Timestamp,
  InterfaceRef, Direction, rx, tx, CaptureEvent, Annotation, standard, extended, new_frame,
  new_event,
}
use cantools_rs.Codec.{FidelityNote, ReadReport, WriteReport, CodecError, io, parse, core}

pub record ObjectHeaderV1Write : Type 0 where
  pub flags : ℕ
  pub client_index : ℕ
  pub version : ℕ
  pub timestamp_ns : ℕ

pub record CanMessage2Write : Type 0 where
  pub header : ObjectHeaderV1Write
  pub channel : ℕ
  pub flags : ℕ
  pub dlc : ℕ
  pub id : ℕ
  pub frame_length_ns : ℕ
  pub bit_count : ℕ
  pub ext_data_offset : ℕ
  pub payload : Bytes

-- `seconds.max(0) as u64 * 1_000_000_000 + nanos`, each step within 64 bits.
unfoldable pub timestamp_to_ns : {E : Type 0} → Timestamp → Result E ℕ
timestamp_to_ns t =
    if ltb (pos_part t.seconds * 1_000_000_000 + t.nanos) (2 ^ 64)
    then ok (pos_part t.seconds * 1_000_000_000 + t.nanos)
    else panic

-- `value as u16` keeps 16 bits.
unfoldable pub decode_id : ℕ → Result CoreError CanId
decode_id raw =
    if bit_set raw 0x8000_0000
    then extended (bit_and raw 0x1fff_ffff)
    else standard (bit_and raw 0x1fff_ffff % 2 ^ 16)

abbrev pub class_flags : FrameClass → ℕ → ℕ
class_flags remote raw = bit_or raw 0x4000_0000
class_flags error raw = bit_or raw 0x2000_0000
class_flags data_frame raw = raw

unfoldable pub raw_id : CanFrame → ℕ
raw_id frame =
    class_flags frame.class
      (if frame.id.extended then bit_or frame.id.raw 0x8000_0000 else frame.id.raw)

abbrev pub flag_if : Bool → ℕ → ℕ
flag_if set flag = if set then flag else 0

abbrev pub is_tx : Direction → Bool
is_tx tx = true
is_tx rx = false

unfoldable pub message_flags : CaptureEvent → ℕ
message_flags event =
    bit_or
      (bit_or (bit_or (flag_if (is_tx event.direction) 0x01) (flag_if event.frame.fd 0x02))
        (flag_if event.frame.fd_flags.bit_rate_switch 0x04))
      (flag_if event.frame.fd_flags.error_state_indicator 0x08)

unfoldable pub build_can_message : {E : Type 0} → CaptureEvent → Result E CanMessage2Write
build_can_message event = do
  ns ← timestamp_to_ns event.timestamp
  let data_len = min (length event.frame.payload) 64
  ok (record {
    header = record { flags = 2; client_index = 0; version = 0; timestamp_ns = ns };
    channel = Option.get_or event.interface.index 1 % 2 ^ 16;
    flags = message_flags event;
    dlc = data_len % 2 ^ 8;
    id = raw_id event.frame;
    frame_length_ns = data_len;
    bit_count = data_len * 8 % 2 ^ 8;
    ext_data_offset = 0;
    payload = take (min data_len 8) event.frame.payload ++ replicate (8 - min data_len 8) 0;
  })

-- What the reader uses of an object of `ablf`: a CAN message, or another object by its debug text.
pub record CanMessage : Type 0 where
  pub id : ℕ
  pub dlc : ℕ
  pub bit_count : ℕ
  pub payload : Bytes
  pub timestamp_ns : ℕ
  pub channel : ℕ
  pub flags : ℕ

pub data Object : Type 0 where
  can_message : CanMessage → Object
  other : (debug : Text) → Object

abbrev pub read_class : ℕ → FrameClass
read_class raw =
    if bit_set raw 0x2000_0000
    then error
    else if bit_set raw 0x4000_0000
    then remote
    else data_frame

unfoldable pub read_message : CanMessage → Result CoreError CaptureEvent
read_message m = do
  id ← decode_id m.id
  let data_len = min (max m.dlc (m.bit_count / 8)) 8
  frame ←
      new_frame id (read_class m.id) (take (min data_len 8) m.payload) false
        (record { bit_rate_switch = false; error_state_indicator = false })
  ok (
      new_event
        (record {
          seconds = signed 64 (m.timestamp_ns / 1_000_000_000);
          nanos = m.timestamp_ns % 1_000_000_000;
        })
        (record { name = none; index = some m.channel }) (if bit_set m.flags 0x01 then tx else rx)
        frame)
