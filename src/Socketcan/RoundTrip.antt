-- ===== src/Socketcan/RoundTrip.antt =====
-- A frame that is sent and received again.
use cantools_rs.Prelude.{
  ℕ, ◌+◌, ◌-◌, ◌*◌, ◌/◌, ◌%◌, ◌^◌, ◌≤◌, ◌<◌, min, bit_or, true, false, ◌∷◌, ◌++◌, ok, Bytes, length,
  take, replicate, ◌==◌, if◌then◌else◌, arith, ◌≡◌, refl, ◌∙◌, ap, ap₂, inl, inr, Bool-cases,
  append_assoc, length-append, length-replicate, take-append, take_all,
}
use cantools_rs.Prelude.Bits.{bit_set}
use cantools_rs.Core.{CanFrame, FdFlags}
use cantools_rs.Core.Validation.{IsValidId, IsValidFrame, new_frame_ok}
use cantools_rs.Socketcan.Wire.{
  CanFdFrameNative, can_id_from_frame, fd_native, classic_native, u32_bytes, frame_bytes,
  received_struct, received_id, received_class, frame_from_struct, frame_from_bytes,
}
use cantools_rs.Socketcan.IdWord.{
  class_weight, format_weight, class_low, can_id_from_frame_sum, small_id, received_class_sum,
  received_id_sum,
}

can_id_small : (f : CanFrame) → IsValidId f.id → can_id_from_frame f < 2 ^ 32
can_id_small f h = ground (arith, can_id_from_frame_sum f h, class_low f.class)

u32_round :
    (x : ℕ)
    → x < 2 ^ 32
    → x % 256 + x / 2 ^ 8 % 256 * 2 ^ 8 + x / 2 ^ 16 % 256 * 2 ^ 16 + x / 2 ^ 24 % 256 * 2 ^ 24 ≡ x
u32_round x h = omega arith

-- What `recv` leaves of a frame: a classic frame has no flags.
abbrev pub as_received : CanFrame → CanFrame
as_received f = record f {
  fd_flags =
      if f.fd
      then f.fd_flags
      else record { bit_rate_switch = false; error_state_indicator = false };
}

-- The bytes of a frame and the payload that `recv` cuts out of the struct.
padded :
    (payload : Bytes) (m n : ℕ)
    → take (length payload) ((payload ++ replicate m 0) ++ replicate n 0) ≡ payload
padded payload m n =
    rw (append_assoc payload (replicate m 0) (replicate n 0)) (take-append payload _)

abbrev flag_byte : CanFrame → ℕ
flag_byte f =
    bit_or (if f.fd_flags.bit_rate_switch then 0x01 else 0)
      (if f.fd_flags.error_state_indicator then 0x02 else 0)

flags_back :
    (f : CanFrame)
    → (◌≡◌ {A = FdFlags}
        (record {
          bit_rate_switch = bit_set (if f.fd then flag_byte f else 0) 0x01;
          error_state_indicator = bit_set (if f.fd then flag_byte f else 0) 0x02;
        })
        (as_received f).fd_flags)
flags_back f = ground arith

-- A struct with the identifier word, the length, the payload and the flags of `f`.
record Holds (f : CanFrame) (native : CanFdFrameNative) : Type 0 where
  id : native.can_id ≡ can_id_from_frame f
  len : native.len ≡ length f.payload
  room : length f.payload ≤ length native.payload
  cut : take (length f.payload) native.payload ≡ f.payload
  flags : (if f.fd then native.flags else 0) ≡ (if f.fd then flag_byte f else 0)

frame_from_struct-Holds :
    (f : CanFrame) (native : CanFdFrameNative)
    → IsValidFrame f
    → Holds f native
    → frame_from_struct f.fd native ≡ ok (as_received f)
unfolding frame_from_struct
frame_from_struct-Holds f native valid holds =
    let word : native.can_id ≡ f.id.raw + format_weight f.id.extended + class_weight f.class =
      holds.id ∙ can_id_from_frame_sum f valid.id_fits in
    let same_id : received_id native.can_id ≡ ok f.id =
      ap received_id word ∙ received_id_sum f.id f.class valid.id_fits in
    let same_class : received_class native.can_id ≡ f.class =
      ap received_class word
      ∙ received_class_sum f.class f.id.raw f.id.extended (small_id f.id valid.id_fits) in
    let same_len : min (if f.fd then native.len else min native.len 8) (length native.payload)
        ≡ length f.payload =
      ground (arith, valid.payload_fits, holds.len, holds.room) in
    rw (same_id, same_class, same_len, holds.cut, holds.flags, flags_back f)
      (new_frame_ok f.id f.class f.payload f.fd (as_received f).fd_flags valid.payload_fits)

-- Both structs have one layout up to the length of their payload.
abbrev layout : ℕ → ℕ → ℕ → ℕ → ℕ → Bytes → Bytes
layout can_id len flags res0 res1 payload = u32_bytes can_id ++ len ∷ flags ∷ res0 ∷ res1 ∷ payload

module _ (can_id len flags res0 res1 : ℕ) (payload : Bytes) where
  received_struct-layout :
      can_id < 2 ^ 32
      → length payload ≤ 64
      → received_struct (layout can_id len flags res0 res1 payload) ≡ record {
        can_id = can_id;
        len = len;
        flags = flags;
        res0 = res0;
        res1 = res1;
        payload = payload ++ replicate (64 - length payload) 0;
      }
  unfolding received_struct
  received_struct-layout word room =
      rw (take_all 64 payload room, u32_round can_id word)
        (ap
          (λ k. record {
            can_id = can_id;
            len = len;
            flags = flags;
            res0 = res0;
            res1 = res1;
            payload = payload ++ replicate k 0;
          })
          (omega arith))

module _ (f : CanFrame) (valid : IsValidFrame f) where
  abbrev fd_payload : Bytes
  fd_payload = f.payload ++ replicate (64 - length f.payload) 0

  abbrev classic_payload : Bytes
  classic_payload = f.payload ++ replicate (8 - length f.payload) 0

  send_fd :
      {E : Type 0}
      → f.fd ≡ true
      → frame_bytes {E = E} f
        ≡ ok (layout (can_id_from_frame f) (length f.payload) (flag_byte f) 0 0 fd_payload)
  unfolding frame_bytes fd_native
  send_fd fd = ground (arith, valid.payload_fits)

  send_classic :
      {E : Type 0}
      → f.fd ≡ false
      → frame_bytes {E = E} f
        ≡ ok (layout (can_id_from_frame f) (length f.payload) 0 0 0 classic_payload)
  unfolding frame_bytes classic_native
  send_classic classic = ground (arith, valid.payload_fits)

  module _ (size flags : ℕ) (small : size ≤ 64) (room : length f.payload ≤ size) where
    abbrev filled : Bytes
    filled = f.payload ++ replicate (size - length f.payload) 0

    length-filled : length filled ≡ size
    length-filled = omega (
      arith,
      length-append f.payload (replicate (size - length f.payload) 0),
      length-replicate {A = ℕ} (size - length f.payload) 0,
    )

    struct-Holds :
        (if f.fd then flags else 0) ≡ (if f.fd then flag_byte f else 0)
        → Holds f (record {
          can_id = can_id_from_frame f;
          len = length f.payload;
          flags = flags;
          res0 = 0;
          res1 = 0;
          payload = filled ++ replicate (64 - length filled) 0;
        })
    struct-Holds same_flags = record {
      id = refl;
      len = refl;
      room = omega (
        arith,
        length-append filled (replicate (64 - length filled) 0),
        length-append f.payload (replicate (size - length f.payload) 0),
      );
      cut = padded f.payload (size - length f.payload) (64 - length filled);
      flags = same_flags;
    }

    receive :
        (size == 64) ≡ f.fd
        → (if f.fd then flags else 0) ≡ (if f.fd then flag_byte f else 0)
        → frame_from_bytes (layout (can_id_from_frame f) (length f.payload) flags 0 0 filled)
          ≡ ok (as_received f)
    unfolding frame_from_bytes
    receive kind same_flags =
        let whole : (length (layout (can_id_from_frame f) (length f.payload) flags 0 0 filled)
              == 72)
            ≡ f.fd =
          ground (arith, length-filled, kind) in
        ap₂ frame_from_struct whole (
          received_struct-layout (can_id_from_frame f) (length f.payload) flags 0 0 filled
            (can_id_small f valid.id_fits) (omega (arith, length-filled)))
        ∙ frame_from_struct-Holds f _ valid (struct-Holds same_flags)

-- For every valid frame `send` writes one struct without a panic, of 72 bytes for a CAN FD frame
-- and 16 for a classic one; and whoever receives those bytes gets the frame back, with its
-- identifier, format, class and payload, and, for a CAN FD frame, its flags.
pub frame_from_bytes-frame_bytes :
    {E : Type 0} (f : CanFrame)
    → IsValidFrame f
    → (bytes : Bytes) × (frame_bytes {E = E} f ≡ ok bytes)
      × (length bytes ≡ (if f.fd then 72 else 16))
      × (frame_from_bytes bytes ≡ ok (as_received f))
frame_from_bytes-frame_bytes f valid = elim (Bool-cases f.fd) [
  | inl fd ↦ (
    layout (can_id_from_frame f) (length f.payload) (flag_byte f) 0 0 (fd_payload f valid),
    send_fd f valid fd,
    rw fd (
        omega (
          arith,
          length-filled f valid 64 (flag_byte f) (omega arith) (ground (arith, valid.payload_fits)),
        )),
    receive f valid 64 (flag_byte f) (omega arith) (ground (arith, valid.payload_fits)) (rw fd refl)
        refl,
  )
  | inr classic ↦ (
    layout (can_id_from_frame f) (length f.payload) 0 0 0 (classic_payload f valid),
    send_classic f valid classic,
    rw classic (
        omega
          (arith, length-filled f valid 8 0 (omega arith) (ground (arith, valid.payload_fits)))),
    receive f valid 8 0 (omega arith) (ground (arith, valid.payload_fits)) (rw classic refl)
        (rw classic refl),
  )
]
