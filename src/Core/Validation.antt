-- ===== src/Core/Validation.antt =====
-- What the checked constructors of the CAN model accept, and the invariant that they establish.
use cantools_rs.Prelude.{
  ℕ, ◌+◌, ◌*◌, ◌≤◌, ◌<◌, ◌^◌, ◌≡◌, ◌↔◌, Bool, true, false, ok, Bytes, length, arith, if◌then◌else◌,
}
use cantools_rs.Prelude.Int.{pos, pos_part}
use cantools_rs.Core.{
  CanId, CanFrame, FrameClass, FdFlags, Timestamp, standard, extended, max_payload, new_frame,
  from_system_time,
}

-- The identifier fits the width of its format: 29 bits, or 11.
abbrev pub IsValidId : CanId → Type 0
IsValidId id = id.raw ≤ (if id.extended then 0x1fff_ffff else 0x7ff)

pub record IsValidFrame (f : CanFrame) : Type 0 where
  pub id_fits : IsValidId f.id
  pub payload_fits : length f.payload ≤ max_payload f.fd

pub standard-IsValidId : (raw : ℕ) {id : CanId} → standard raw ≡ ok id → IsValidId id
unfolding standard
standard-IsValidId raw e = ground arith

pub extended-IsValidId : (raw : ℕ) {id : CanId} → extended raw ≡ ok id → IsValidId id
unfolding extended
extended-IsValidId raw e = ground arith

pub standard_ok :
    (raw : ℕ) → raw ≤ 0x7ff → standard raw ≡ ok (record { raw = raw; extended = false })
unfolding standard
standard_ok raw h = ground arith

pub extended_ok :
    (raw : ℕ) → raw ≤ 0x1fff_ffff → extended raw ≡ ok (record { raw = raw; extended = true })
unfolding extended
extended_ok raw h = ground arith

-- A valid identifier is exactly what one of the two constructors returns for its own raw value.
pub IsValidId-constructors :
    (id : CanId)
    → IsValidId id ↔ ((if id.extended then extended id.raw else standard id.raw) ≡ ok id)
unfolding standard extended
IsValidId-constructors id = ground arith

-- `CanFrame::new` succeeds on exactly the payloads that fit the kind of frame, and then keeps
-- every field.
pub new_frame_iff :
    (id : CanId) (class : FrameClass) (payload : Bytes) (fd : Bool) (flags : FdFlags) (f : CanFrame)
    → (new_frame id class payload fd flags ≡ ok f) ↔ (
        (length payload ≤ max_payload fd)
        × (f ≡ record { id = id; class = class; payload = payload; fd = fd; fd_flags = flags }))
unfolding new_frame
new_frame_iff id class payload fd flags f = ground arith

pub new_frame-IsValidFrame :
    (id : CanId) (class : FrameClass) (payload : Bytes) (fd : Bool) (flags : FdFlags) {f : CanFrame}
    → IsValidId id
    → new_frame id class payload fd flags ≡ ok f
    → IsValidFrame f
unfolding new_frame
new_frame-IsValidFrame id class payload fd flags h e = ground arith

pub new_frame_ok :
    (id : CanId) (class : FrameClass) (payload : Bytes) (fd : Bool) (flags : FdFlags)
    → length payload ≤ max_payload fd
    → new_frame id class payload fd flags
      ≡ ok (record { id = id; class = class; payload = payload; fd = fd; fd_flags = flags })
unfolding new_frame
new_frame_ok id class payload fd flags h = ground arith

-- A system time at or after the epoch, below 2^63 seconds, that becomes a timestamp loses nothing
-- in it, and its nanoseconds are below 10^9.
pub from_system_time_exact :
    (ns : ℕ) {t : Timestamp}
    → ns < 2 ^ 63 * 1_000_000_000
    → from_system_time (pos ns) ≡ ok t
    → (pos_part t.seconds * 1_000_000_000 + t.nanos ≡ ns) × (t.nanos < 1_000_000_000)
unfolding from_system_time
from_system_time_exact ns h e = ground arith
