-- ===== src/Isotp.antt =====
-- crates/cantools-isotp/src/lib.rs: ISO-TP segmentation and reassembly.
-- `usize` is 64 bits wide and `u8` 8; a payload is a slice, so its length is below 2^63 and no
-- offset of `segment` wraps.
pub mod Encode
pub mod Segment
pub mod Reassembly
pub mod RoundTrip
mod Tests
use cantools_rs.Prelude.{
  ℕ, zero, suc, ◌+◌, ◌-◌, ◌%◌, ◌/◌, min, bit_and, bit_or, Option, none, some, List, [], ◌∷◌, ◌++◌,
  Result, ok, err, Bytes, length, take, drop, ltb, leb, ◌==◌, if◌then◌else◌,
}
use cantools_rs.Core.{CanId}
use mathlib.Core.Option

pub data AddressingMode : Type 0 where
  normal : AddressingMode
  extended : (address : ℕ) → AddressingMode

pub record Address : Type 0 where
  pub tx_id : CanId
  pub rx_id : CanId
  pub mode : AddressingMode

pub data FlowStatus : Type 0 where
  continue_to_send wait overflow : FlowStatus

pub data IsotpError : Type 0 where
  single_frame_too_large : IsotpError
  unexpected_consecutive_frame : IsotpError
  sequence_number_mismatch : (expected actual : ℕ) → IsotpError
  invalid_flow_control : IsotpError

pub data ProtocolDataUnit : Type 0 where
  single_frame : (payload : Bytes) → ProtocolDataUnit
  first_frame : (total_len : ℕ) (payload : Bytes) → ProtocolDataUnit
  consecutive_frame : (sequence_number : ℕ) (payload : Bytes) → ProtocolDataUnit
  flow_control : FlowStatus → (block_size separation_time_ms : ℕ) → ProtocolDataUnit

unfoldable pub status_nibble : FlowStatus → ℕ
status_nibble continue_to_send = 0x00
status_nibble wait = 0x01
status_nibble overflow = 0x02

-- `frame_size.saturating_sub(1)` is the subtraction of ℕ; `as u8` keeps 8 bits.
pub encode : ProtocolDataUnit → ℕ → Result IsotpError Bytes
unfolding status_nibble
encode (single_frame payload) frame_size =
    if ltb (frame_size - 1) (length payload)
    then err single_frame_too_large
    else ok ((length payload % 256) ∷ payload)
encode (first_frame total_len payload) frame_size =
    ok (
      bit_or 0x10 (bit_and (total_len / 256) 0x0f % 256) ∷ (bit_and total_len 0xff % 256) ∷ payload)
encode (consecutive_frame sequence_number payload) frame_size =
    ok (bit_or 0x20 (bit_and sequence_number 0x0f) ∷ payload)
encode (flow_control status block_size separation_time_ms) frame_size =
    ok (bit_or 0x30 (status_nibble status) ∷ block_size ∷ separation_time_ms ∷ [])

-- `payload[from..to]`
abbrev pub slice : Bytes → ℕ → ℕ → Bytes
slice payload from to = take (to - from) (drop from payload)

-- The `while` loop of `segment`, with the units that it pushes; `none` means that the fuel ran out.
pub segment_loop : ℕ → Bytes → ℕ → ℕ → ℕ → Option (List ProtocolDataUnit)
segment_loop zero payload consecutive_capacity offset seq =
    if ltb offset (length payload) then none else some []
segment_loop (suc fuel) payload consecutive_capacity offset seq =
    let end = min (offset + consecutive_capacity) (length payload) in
    let rest = segment_loop fuel payload consecutive_capacity end (bit_and (seq + 1) 0x0f) in
    if ltb offset (length payload)
    then Option.map (◌∷◌ (consecutive_frame seq (slice payload offset end))) rest
    else some []

-- `segment` never fails, so its `Result` is left out; `none` is a loop that outlasts the fuel.
pub segment_fuelled : ℕ → Bytes → ℕ → Option (List ProtocolDataUnit)
segment_fuelled fuel payload frame_payload_capacity =
    let first_capacity = frame_payload_capacity - 2 in
    let first_end = min (length payload) first_capacity in
    if leb (length payload) (frame_payload_capacity - 1)
    then some (single_frame payload ∷ [])
    else Option.map (◌∷◌ (first_frame (length payload) (slice payload 0 first_end)))
        (segment_loop fuel payload (frame_payload_capacity - 1) first_end 1)

-- A round takes a byte at least, so a round for each byte is enough.
pub segment : Bytes → ℕ → Option (List ProtocolDataUnit)
segment payload frame_payload_capacity =
    segment_fuelled (length payload) payload frame_payload_capacity

pub record Reassembler : Type 0 where
  pub total_len : Option ℕ
  pub next_seq : ℕ
  pub buffer : Bytes

-- `Reassembler::default()`
abbrev pub fresh : Reassembler
fresh = record { total_len = none; next_seq = 0; buffer = [] }

-- `split_off` leaves the bytes past `total` in the buffer.
pub take_if_complete : Reassembler → Option Bytes × Reassembler
take_if_complete r = elim r.total_len [
  | none ↦ (none, r)
  | some total ↦
      if ltb (length r.buffer) total
      then (none, r)
      else (some (take total r.buffer), record r { total_len = none; buffer = drop total r.buffer })
]

abbrev pub Reply : Type 0
Reply = Result IsotpError (Option Bytes)

abbrev replies : Option Bytes × Reassembler → Reply × Reassembler
replies (done, r) = (ok done, r)

ingest_consecutive : Reassembler → Option ℕ → ℕ → Bytes → Reply × Reassembler
unfolding take_if_complete
ingest_consecutive r none sequence_number payload = (err unexpected_consecutive_frame, r)
ingest_consecutive r (some total) sequence_number payload =
    if sequence_number == r.next_seq
    then replies (
        take_if_complete
          (record r { buffer = r.buffer ++ payload; next_seq = bit_and (r.next_seq + 1) 0x0f }))
    else (err (sequence_number_mismatch r.next_seq sequence_number), r)

pub ingest : Reassembler → ProtocolDataUnit → Reply × Reassembler
unfolding ingest_consecutive take_if_complete
ingest r (single_frame payload) = (ok (some payload), r)
ingest r (first_frame total_len payload) =
    replies
      (take_if_complete (record { total_len = some total_len; next_seq = 1; buffer = payload }))
ingest r (consecutive_frame sequence_number payload) =
    ingest_consecutive r r.total_len sequence_number payload
ingest r (flow_control status block_size separation_time_ms) = (ok none, r)

-- The replies to a sequence of units, as a receiver gets them one by one.
pub ingest_all : Reassembler → List ProtocolDataUnit → List Reply × Reassembler
ingest_all r [] = ([], r)
ingest_all r (pdu ∷ rest) =
    let (reply, r') = ingest r pdu in
    let (later, last) = ingest_all r' rest in (reply ∷ later, last)
