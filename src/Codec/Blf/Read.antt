-- ===== src/Codec/Blf/Read.antt =====
-- `read_blf` against the objects of a file.
use cantools_rs.Prelude.{
  List, ◌∷◌, ◌==◌, ℕ, ◌+◌, ◌*◌, ◌/◌, ◌%◌, ◌^◌, ◌<◌, min, max, false, none, some, [], take,
  if◌then◌else◌, ◌≡◌,
}
use cantools_rs.Prelude.Int.{pos}
use cantools_rs.Core.{Text, CanId, FrameClass, CaptureEvent, rx, tx, extended}
use cantools_rs.Core.Validation.{IsValidId}
use cantools_rs.Socketcan.IdWord.{class_weight, format_weight}
use cantools_rs.Codec.{FidelityNote}
use cantools_rs.Codec.Blf.Objects.{import_note, ignored_note}
use cantools_rs.Codec.Blf.{Object, can_message, other, CanMessage}

-- What the fields of a CAN message hold: the word of an identifier with the flags of its format and of a
-- class, and a time that fits 64 bits.
pub record Carries (m : CanMessage) (id : CanId) (class : FrameClass) (seconds nanos : ℕ)
    : Type 0 where
  pub valid : IsValidId id
  pub word : m.id ≡ id.raw + format_weight id.extended + class_weight class
  pub time : m.timestamp_ns ≡ seconds * 1_000_000_000 + nanos
  pub below : nanos < 1_000_000_000
  pub fits : m.timestamp_ns < 2 ^ 64

-- The event of such a message: at most eight bytes, a classic frame, and no name.
abbrev pub event_of : CanMessage → CanId → FrameClass → ℕ → ℕ → CaptureEvent
event_of m id class seconds nanos = record {
  timestamp = record { seconds = pos seconds; nanos = nanos };
  interface = record { name = none; index = some m.channel };
  direction = if m.flags % 2 == 1 then tx else rx;
  frame = record {
    id = id;
    class = class;
    payload = take (min (max m.dlc (m.bit_count / 8)) 8) m.payload;
    fd = false;
    fd_flags = record { bit_rate_switch = false; error_state_indicator = false };
  };
  annotations = [];
}

-- An object of a file, with what it carries if it is a CAN message.
pub data Held : Type 0 where
  carrying : (m : CanMessage) (id : CanId) (class : FrameClass) (seconds nanos : ℕ) → Held
  foreign : (debug : Text) → Held

abbrev pub object_of : Held → Object
object_of (carrying m id class seconds nanos) = can_message m
object_of (foreign debug) = other debug

abbrev pub IsHeld : Held → Type 0
IsHeld (carrying m id class seconds nanos) = Carries m id class seconds nanos
IsHeld (foreign debug) = Unit {0}

abbrev pub events_of : List Held → List CaptureEvent
events_of [] = []
events_of (carrying m id class seconds nanos ∷ rest) =
    event_of m id class seconds nanos ∷ events_of rest
events_of (foreign debug ∷ rest) = events_of rest

-- A note for each object, with the place of its event.
abbrev pub notes_of : ℕ → List Held → List FidelityNote
notes_of index [] = []
notes_of index (carrying m id class seconds nanos ∷ rest) =
    import_note index ∷ notes_of (index + 1) rest
notes_of index (foreign debug ∷ rest) = ignored_note debug ∷ notes_of index rest
