-- ===== src/Isotp/Encode.antt =====
-- The bytes of an encoded unit against the ISO-TP header: a type in the high half of the first
-- byte, and a length or a sequence number in the low bits.
use cantools_rs.Prelude.{
  ℕ, ◌+◌, ◌*◌, ◌/◌, ◌%◌, ◌≤◌, ◌<◌, bit_and, ◌≡◌, ◌≢◌, [], ◌∷◌, ok, Bytes, length, arith,
}
use cantools_rs.Prelude.Bits.{bit_and_low, shl-bit_or}
use cantools_rs.Isotp.{
  ProtocolDataUnit, continue_to_send, wait, overflow, single_frame, first_frame, consecutive_frame,
  flow_control, status_nibble, encode,
}
use cantools_rs.Isotp.Segment.{Fits}

-- The frame type of ISO 15765-2.
abbrev pub frame_type : ProtocolDataUnit → ℕ
frame_type (single_frame payload) = 0
frame_type (first_frame total_len payload) = 1
frame_type (consecutive_frame sequence_number payload) = 2
frame_type (flow_control status block_size separation_time_ms) = 3

-- What the low half of the first byte, with the second byte of a first frame, carries.
abbrev pub header_value : ProtocolDataUnit → Bytes → ℕ → ℕ
header_value (first_frame total_len payload) (low ∷ rest) half = half * 256 + low
header_value (first_frame total_len payload) [] half = half
header_value (single_frame payload) rest half = half
header_value (consecutive_frame sequence_number payload) rest half = half
header_value (flow_control status block_size separation_time_ms) rest half = half

abbrev pub field_value : ProtocolDataUnit → ℕ
field_value (single_frame payload) = length payload
field_value (first_frame total_len payload) = total_len % 4096
field_value (consecutive_frame sequence_number payload) = sequence_number % 16
field_value (flow_control status block_size separation_time_ms) = status_nibble status

low_half : (x : ℕ) → bit_and x 0x0f ≡ x % 16
low_half = bit_and_low 4

low_byte : (x : ℕ) → bit_and x 0xff ≡ x % 256
low_byte = bit_and_low 8

-- An encoding that fits its frame and has the header of its unit.
record Encoded (pdu : ProtocolDataUnit) (frame_size : ℕ) : Type 0 where
  first : ℕ
  rest : Bytes
  returns : encode pdu frame_size ≡ ok (first ∷ rest)
  typed : first / 16 ≡ frame_type pdu
  valued : header_value pdu rest (first % 16) ≡ field_value pdu
  within : length (first ∷ rest) ≤ frame_size

encode-Encoded :
    (pdu : ProtocolDataUnit) (frame_size : ℕ)
    → 3 ≤ frame_size
    → frame_size ≤ 16
    → Fits frame_size pdu
    → Encoded pdu frame_size
unfolding encode status_nibble
encode-Encoded (single_frame payload) n lo hi fits = record {
  first = length payload % 256;
  rest = payload;
  returns = ground arith;
  typed = omega arith;
  valued = omega arith;
  within = omega arith;
}
encode-Encoded (first_frame total payload) n lo hi fits = record {
  first = 16 + total / 256 % 16;
  rest = total % 256 ∷ payload;
  returns =
      rw (low_half, low_byte, fits_high, fits_low, shl-bit_or 4 1 (total / 256 % 16) (omega arith));
  typed = omega arith;
  valued = omega arith;
  within = omega arith;
}
  where
    fits_high : total / 256 % 16 % 256 ≡ total / 256 % 16
    fits_high = omega arith

    fits_low : total % 256 % 256 ≡ total % 256
    fits_low = omega arith
encode-Encoded (consecutive_frame seq payload) n lo hi fits = record {
  first = 32 + seq % 16;
  rest = payload;
  returns = ground (arith, low_half seq, shl-bit_or 4 2 (seq % 16));
  typed = omega arith;
  valued = omega arith;
  within = omega arith;
}
encode-Encoded (flow_control continue_to_send block time) n lo hi fits = record {
  first = 48;
  rest = block ∷ time ∷ [];
  returns = ground arith;
  typed = omega arith;
  valued = omega arith;
  within = omega arith;
}
encode-Encoded (flow_control wait block time) n lo hi fits = record {
  first = 49;
  rest = block ∷ time ∷ [];
  returns = ground arith;
  typed = omega arith;
  valued = omega arith;
  within = omega arith;
}
encode-Encoded (flow_control overflow block time) n lo hi fits = record {
  first = 50;
  rest = block ∷ time ∷ [];
  returns = ground arith;
  typed = omega arith;
  valued = omega arith;
  within = omega arith;
}

-- For frames of 3 to 16 bytes and a unit that fits them (a consecutive frame has a four-bit number),
-- `encode` succeeds, and the result fits the frame. Its first byte holds the frame type in its high half; its low half (with the second byte
-- of a first frame) holds the payload length, the total length modulo 4096, the sequence number
-- modulo 16, or the flow status.
pub encode_header :
    (pdu : ProtocolDataUnit) (frame_size : ℕ)
    → 3 ≤ frame_size
    → frame_size ≤ 16
    → Fits frame_size pdu
    → (first : ℕ) × (rest : Bytes) × (encode pdu frame_size ≡ ok (first ∷ rest))
      × (first / 16 ≡ frame_type pdu)
      × (header_value pdu rest (first % 16) ≡ field_value pdu)
      × (length (first ∷ rest) ≤ frame_size)
encode_header pdu n lo hi fits =
    let e = encode-Encoded pdu n lo hi fits in
    (e.first, e.rest, e.returns, e.typed, e.valued, e.within)

-- Every single frame of 16 to 255 payload bytes that `encode` accepts begins with a byte whose high
-- half is not 0, the type of a single frame.
pub encode_single_mistyped :
    (payload : Bytes) (frame_size : ℕ) {first : ℕ} {rest : Bytes}
    → 16 ≤ length payload
    → length payload < 256
    → encode (single_frame payload) frame_size ≡ ok (first ∷ rest)
    → first / 16 ≢ frame_type (single_frame payload)
unfolding encode
encode_single_mistyped payload frame_size lo hi e = ground arith
