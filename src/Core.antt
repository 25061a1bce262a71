-- ===== src/Core.antt =====
-- crates/cantools-core/src/lib.rs: the portable CAN model that all other crates share.
-- A Rust `String` is its UTF-8 bytes; a static text is a native `String`. A `SystemTime` is a whole
-- number of nanoseconds since the Unix epoch, negative before it.
pub mod Validation
mod Tests
use Prim.Native.String.{String}
use cantools_rs.Prelude.{
  ℕ, ◌/◌, ◌%◌, ◌^◌, ◌≤◌, Bool, true, false, Option, List, [], Result, ok, err, Bytes, length, ltb,
  if◌then◌else◌,
}
use cantools_rs.Prelude.Int.{ℤ, pos, negsuc, signed}

abbrev pub Text : Type 0
Text = Bytes

pub data CoreError : Type 0 where
  invalid_can_id : (value : ℕ) (kind : String) → CoreError
  invalid_payload_length : (len max_len : ℕ) (kind : String) → CoreError
  timestamp_before_epoch : CoreError

pub record CanId : Type 0 where
  pub raw : ℕ
  pub extended : Bool

pub data FrameClass : Type 0 where
  data_frame remote error : FrameClass

pub record FdFlags : Type 0 where
  pub bit_rate_switch : Bool
  pub error_state_indicator : Bool

pub record CanFrame : Type 0 where
  pub id : CanId
  pub class : FrameClass
  pub payload : Bytes
  pub fd : Bool
  pub fd_flags : FdFlags

pub record Timestamp : Type 0 where
  pub seconds : ℤ
  pub nanos : ℕ

pub record InterfaceRef : Type 0 where
  pub name : Option Text
  pub index : Option ℕ

pub data Direction : Type 0 where
  rx tx : Direction

pub record Annotation : Type 0 where
  pub key : Text
  pub value : Text

pub record CaptureEvent : Type 0 where
  pub timestamp : Timestamp
  pub interface : InterfaceRef
  pub direction : Direction
  pub frame : CanFrame
  pub annotations : List Annotation

-- `F` stands for `f64`.
pub data ReplayMode (F : Type 0) : Type 0 where
  preserve : ReplayMode F
  immediate : ReplayMode F
  scale : F → ReplayMode F

-- The argument is a `u16`.
unfoldable pub standard : ℕ → Result CoreError CanId
standard raw =
    if ltb 0x7ff raw
    then err (invalid_can_id raw "standard identifier")
    else ok (record { raw = raw; extended = false })

-- The argument is a `u32`.
unfoldable pub extended : ℕ → Result CoreError CanId
extended raw =
    if ltb 0x1fff_ffff raw
    then err (invalid_can_id raw "extended identifier")
    else ok (record { raw = raw; extended = true })

abbrev pub max_payload : Bool → ℕ
max_payload fd = if fd then 64 else 8

-- `CanFrame::new`
unfoldable pub new_frame : CanId → FrameClass → Bytes → Bool → FdFlags → Result CoreError CanFrame
new_frame id class payload fd fd_flags =
    if ltb (max_payload fd) (length payload)
    then err (
        invalid_payload_length (length payload) (max_payload fd)
          (if fd then "CAN FD frame" else "classic CAN frame"))
    else ok (record { id = id; class = class; payload = payload; fd = fd; fd_flags = fd_flags })

unfoldable pub dlc : CanFrame → ℕ
dlc frame = length frame.payload

-- `duration.as_secs() as i64` wraps to 64 bits.
unfoldable pub from_system_time : ℤ → Result CoreError Timestamp
from_system_time (pos ns) =
    ok (record { seconds = signed 64 (ns / 1_000_000_000 % 2 ^ 64); nanos = ns % 1_000_000_000 })
from_system_time (negsuc n) = err timestamp_before_epoch

-- `CaptureEvent::new`
unfoldable pub new_event : Timestamp → InterfaceRef → Direction → CanFrame → CaptureEvent
new_event timestamp interface direction frame = record {
  timestamp = timestamp;
  interface = interface;
  direction = direction;
  frame = frame;
  annotations = [];
}
