-- ===== src/Socketcan/Wire.antt =====
-- crates/cantools-socketcan/src/lib.rs: the kernel's frame structs, as the bytes that `send` writes
-- and `recv_native` reads. The structs are `repr(C)`; a `u32` is stored with its low byte first.
use cantools_rs.Prelude.{
  ℕ, ◌+◌, ◌-◌, ◌*◌, ◌/◌, ◌%◌, ◌^◌, min, bit_and, bit_or, Bool, [], ◌∷◌, ◌++◌, Result, ok, panic,
  ◌>>=◌, Bytes, length, get_or, take, drop, replicate, ltb, ◌==◌, if◌then◌else◌,
}
use cantools_rs.Prelude.Bits.{bit_set}
use cantools_rs.Core.{
  CoreError, CanId, CanFrame, FrameClass, data_frame, remote, error, standard, extended, new_frame,
}

pub record CanFrameNative : Type 0 where
  pub can_id : ℕ
  pub can_dlc : ℕ
  pub len8_dlc : ℕ
  pub pad : ℕ
  pub res0 : ℕ
  pub payload : Bytes

pub record CanFdFrameNative : Type 0 where
  pub can_id : ℕ
  pub len : ℕ
  pub flags : ℕ
  pub res0 : ℕ
  pub res1 : ℕ
  pub payload : Bytes

abbrev pub class_flag : FrameClass → ℕ → ℕ
class_flag remote raw = bit_or raw 0x4000_0000
class_flag error raw = bit_or raw 0x2000_0000
class_flag data_frame raw = raw

unfoldable pub can_id_from_frame : CanFrame → ℕ
can_id_from_frame frame =
    class_flag frame.class
      (if frame.id.extended then bit_or frame.id.raw 0x8000_0000 else frame.id.raw)

-- `data[..payload.len()].copy_from_slice(&payload)` on a zeroed array panics where it is too short.
abbrev pub copy_payload : {E : Type 0} → ℕ → Bytes → Result E Bytes
copy_payload size payload =
    if ltb size (length payload) then panic else ok (payload ++ replicate (size - length payload) 0)

unfoldable pub fd_native : {E : Type 0} → CanFrame → Result E CanFdFrameNative
unfolding can_id_from_frame
fd_native frame = do
  bytes ← copy_payload 64 frame.payload
  ok (record {
    can_id = can_id_from_frame frame;
    len = length frame.payload % 2 ^ 8;
    flags =
        bit_or (if frame.fd_flags.bit_rate_switch then 0x01 else 0)
          (if frame.fd_flags.error_state_indicator then 0x02 else 0);
    res0 = 0;
    res1 = 0;
    payload = bytes;
  })

unfoldable pub classic_native : {E : Type 0} → CanFrame → Result E CanFrameNative
unfolding can_id_from_frame
classic_native frame = do
  bytes ← copy_payload 8 frame.payload
  ok (record {
    can_id = can_id_from_frame frame;
    can_dlc = length frame.payload % 2 ^ 8;
    len8_dlc = 0;
    pad = 0;
    res0 = 0;
    payload = bytes;
  })

-- The memory of a `u32`, and the `u32` in four bytes.
abbrev pub u32_bytes : ℕ → Bytes
u32_bytes x = x % 256 ∷ x / 2 ^ 8 % 256 ∷ x / 2 ^ 16 % 256 ∷ x / 2 ^ 24 % 256 ∷ []

abbrev pub u32_at : Bytes → ℕ → ℕ
u32_at bytes i =
    get_or bytes i 0
    + get_or bytes (i + 1) 0 * 2 ^ 8
    + get_or bytes (i + 2) 0 * 2 ^ 16
    + get_or bytes (i + 3) 0 * 2 ^ 24

abbrev pub classic_bytes : CanFrameNative → Bytes
classic_bytes n = u32_bytes n.can_id ++ n.can_dlc ∷ n.len8_dlc ∷ n.pad ∷ n.res0 ∷ n.payload

abbrev pub fd_bytes : CanFdFrameNative → Bytes
fd_bytes n = u32_bytes n.can_id ++ n.len ∷ n.flags ∷ n.res0 ∷ n.res1 ∷ n.payload

-- The bytes that `RawSocketImpl::send` writes.
unfoldable pub frame_bytes : {E : Type 0} → CanFrame → Result E Bytes
unfolding fd_native classic_native
frame_bytes frame =
    if frame.fd
    then (fd_native frame >>= λ n. ok (fd_bytes n))
    else (classic_native frame >>= λ n. ok (classic_bytes n))

-- The zeroed `CanFdFrameNative` after `recv` has written the received bytes over its start.
unfoldable pub received_struct : Bytes → CanFdFrameNative
received_struct received =
    let memory = take 72 received ++ replicate (72 - length received) 0 in
    record {
      can_id = u32_at memory 0;
      len = get_or memory 4 0;
      flags = get_or memory 5 0;
      res0 = get_or memory 6 0;
      res1 = get_or memory 7 0;
      payload = drop 8 memory;
    }

abbrev pub received_id : ℕ → Result CoreError CanId
received_id raw =
    if bit_set raw 0x8000_0000
    then extended (bit_and raw 0x1fff_ffff)
    else standard (bit_and raw 0x7ff)

abbrev pub received_class : ℕ → FrameClass
received_class raw =
    if bit_set raw 0x2000_0000
    then error
    else if bit_set raw 0x4000_0000
    then remote
    else data_frame

-- `recv_native` from the bytes that the kernel gave.
unfoldable pub frame_from_struct : Bool → CanFdFrameNative → Result CoreError CanFrame
frame_from_struct fd_mode native =
    let len = if fd_mode then native.len else min native.len 8 in
    let flags = if fd_mode then native.flags else 0 in
    received_id native.can_id >>= λ id.
    new_frame id (received_class native.can_id)
      (take (min len (length native.payload)) native.payload) fd_mode
      (record { bit_rate_switch = bit_set flags 0x01; error_state_indicator = bit_set flags 0x02 })

unfoldable pub frame_from_bytes : Bytes → Result CoreError CanFrame
frame_from_bytes received = frame_from_struct (length received == 72) (received_struct received)
