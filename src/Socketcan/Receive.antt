-- ===== src/Socketcan/Receive.antt =====
-- What `recv_native` makes of bytes, whoever sent them.
use cantools_rs.Prelude.{
  ℕ, ◌≤◌, ◌≡◌, refl, min, Bool, bit_and, Result, ok, Bytes, length, length-take, take, ◌==◌,
  if◌then◌else◌, arith, Bool-cases, true, false, ◌++◌, replicate, length-append, length-drop,
  length-replicate, ◌-◌, inl, inr,
}
use cantools_rs.Prelude.Bits.{bit_set, bit_and_low}
use cantools_rs.Core.{CoreError, CanId, CanFrame, FdFlags, max_payload}
use cantools_rs.Core.Validation.{IsValidId, IsValidFrame, standard_ok, extended_ok, new_frame_ok}
use cantools_rs.Socketcan.Wire.{
  CanFdFrameNative, received_id, received_class, received_struct, frame_from_struct,
  frame_from_bytes,
}

-- The masks leave a raw value that its format holds.
received_id_valid : (raw : ℕ) → (id : CanId) × (received_id raw ≡ ok id) × IsValidId id
received_id_valid raw = elim (Bool-cases (bit_set raw 0x8000_0000)) [
  | inl ext ↦
      let small : bit_and raw 0x1fff_ffff ≤ 0x1fff_ffff = omega (arith, bit_and_low 29 raw) in
      (
        record { raw = bit_and raw 0x1fff_ffff; extended = true },
        rw ext (extended_ok (bit_and raw 0x1fff_ffff) small),
        small,
      )
  | inr std ↦
      let small : bit_and raw 0x7ff ≤ 0x7ff = omega (arith, bit_and_low 11 raw) in
      (
        record { raw = bit_and raw 0x7ff; extended = false },
        rw std (standard_ok (bit_and raw 0x7ff) small),
        small,
      )
]

-- What a receiver gets: a valid frame, of the kind that the number of bytes tells.
abbrev pub Received : Bool → Result CoreError CanFrame → Type 0
Received fd result = (f : CanFrame) × (result ≡ ok f) × IsValidFrame f × (f.fd ≡ fd)

frame_from_struct-Received :
    (fd : Bool) (native : CanFdFrameNative)
    → length native.payload ≤ 64
    → Received fd (frame_from_struct fd native)
unfolding frame_from_struct
frame_from_struct-Received fd native room =
    let (id, returns, valid) = received_id_valid native.can_id in
    let n : ℕ = min (if fd then native.len else min native.len 8) (length native.payload) in
    let fits : length (take n native.payload) ≤ max_payload fd =
      ground (arith, length-take n native.payload) in
    let flags : ℕ = if fd then native.flags else 0 in
    let fd_flags : FdFlags = record {
      bit_rate_switch = bit_set flags 0x01;
      error_state_indicator = bit_set flags 0x02;
    } in
    (
      record {
        id = id;
        class = received_class native.can_id;
        payload = take n native.payload;
        fd = fd;
        fd_flags = fd_flags;
      },
      rw returns
          (new_frame_ok id (received_class native.can_id) (take n native.payload) fd fd_flags fits),
      record { id_fits = valid; payload_fits = fits },
      refl,
    )

struct_room : (received : Bytes) → length (received_struct received).payload ≤ 64
unfolding received_struct
struct_room received =
    let memory : Bytes = take 72 received ++ replicate (72 - length received) 0 in
    omega (
      arith,
      length-drop 8 memory,
      length-append (take 72 received) (replicate (72 - length received) 0),
      length-take 72 received,
      length-replicate {A = ℕ} (72 - length received) 0,
    )

-- Whatever bytes the kernel gives, `recv_native` makes a valid frame of them: a CAN FD frame of 72
-- bytes, and a classic frame of any other number. No identifier or length is refused.
pub frame_from_bytes-Received :
    (received : Bytes) → Received (length received == 72) (frame_from_bytes received)
unfolding frame_from_bytes
frame_from_bytes-Received received =
    frame_from_struct-Received (length received == 72) (received_struct received)
      (struct_room received)
