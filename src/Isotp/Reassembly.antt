-- ===== src/Isotp/Reassembly.antt =====
-- The state of a `Reassembler`: its invariant, what it accepts, and what it returns.
use cantools_rs.Prelude.{
  ℕ, ◌+◌, ◌<◌, bit_and, ◌≡◌, refl, ◌↔◌, IsOk, IsSome, Option, none, some, ◌++◌, ok, err, Bytes,
  length, arith, length-take, take-append-drop,
}
use cantools_rs.Prelude.Bits.{bit_and_low}
use cantools_rs.Isotp.{
  ProtocolDataUnit, IsotpError, single_frame, first_frame, consecutive_frame, flow_control,
  Reassembler, fresh, ingest, ingest_consecutive, take_if_complete,
}

-- An active transfer still waits for a byte at least.
abbrev pub Incomplete : Option ℕ → Bytes → Type 0
Incomplete none buffer = Unit {0}
Incomplete (some total) buffer = length buffer < total

pub record IsValid (r : Reassembler) : Type 0 where
  pub small_seq : r.next_seq < 16
  pub incomplete : Incomplete r.total_len r.buffer

pub fresh-IsValid : IsValid fresh
fresh-IsValid = record { small_seq = omega arith; incomplete = tt }

next_seq_small : (r : Reassembler) → bit_and (r.next_seq + 1) 0x0f < 16
next_seq_small r = omega (arith, bit_and_low 4 (r.next_seq + 1))

consecutive-IsValid :
    (r : Reassembler) (active : Option ℕ) (seq : ℕ) (payload : Bytes)
    → r.total_len ≡ active
    → IsValid r
    → IsValid (ingest_consecutive r active seq payload).1
unfolding ingest_consecutive take_if_complete
consecutive-IsValid r none seq payload e v = v
consecutive-IsValid r (some total) seq payload e v = ground (arith, next_seq_small r)

-- From a valid state, `ingest` of any unit, whether it fails or not, leaves a valid state: the next
-- sequence number has four bits (so that adding one to it cannot overflow a `u8`), and an active
-- transfer has fewer bytes than announced.
pub ingest-IsValid :
    (r : Reassembler) (pdu : ProtocolDataUnit) → IsValid r → IsValid (ingest r pdu).1
unfolding ingest take_if_complete
ingest-IsValid r (single_frame payload) v = v
ingest-IsValid r (first_frame total payload) v = ground arith
ingest-IsValid r (consecutive_frame seq payload) v =
    consecutive-IsValid r r.total_len seq payload refl v
ingest-IsValid r (flow_control status block time) v = v

-- An `ingest` that fails leaves the state as it was.
pub ingest_err_keeps :
    (r : Reassembler) (pdu : ProtocolDataUnit) (e : IsotpError)
    → (ingest r pdu).0 ≡ err e
    → (ingest r pdu).1 ≡ r
unfolding ingest ingest_consecutive take_if_complete
ingest_err_keeps r (single_frame payload) e h = cc
ingest_err_keeps r (first_frame total payload) e h = ground arith
ingest_err_keeps r (consecutive_frame seq payload) e h = ground arith
ingest_err_keeps r (flow_control status block time) e h = cc

consecutive_iff :
    (r : Reassembler) (active : Option ℕ) (seq : ℕ) (payload : Bytes)
    → IsOk (ingest_consecutive r active seq payload).0 ↔ (IsSome active × (seq ≡ r.next_seq))
unfolding ingest_consecutive take_if_complete
consecutive_iff r none seq payload = ((λ h. absurd h), λ h. absurd h.0)
consecutive_iff r (some total) seq payload = ground arith

-- A consecutive frame is accepted exactly when a transfer is active and it carries the next
-- sequence number.
pub ingest_consecutive_iff :
    (r : Reassembler) (seq : ℕ) (payload : Bytes)
    → IsOk (ingest r (consecutive_frame seq payload)).0 ↔ (IsSome r.total_len × (seq ≡ r.next_seq))
unfolding ingest
ingest_consecutive_iff r seq payload = consecutive_iff r r.total_len seq payload

-- A consecutive frame that completes a transfer returns exactly the announced number of bytes, the
-- first ones of what was buffered and what the frame brought; the rest stays in the buffer.
pub ingest_completes :
    (r : Reassembler) (seq : ℕ) (payload out : Bytes) (total : ℕ)
    → r.total_len ≡ some total
    → (ingest r (consecutive_frame seq payload)).0 ≡ ok (some out)
    → (length out ≡ total)
      × (out ++ (ingest r (consecutive_frame seq payload)).1.buffer ≡ r.buffer ++ payload)
      × ((ingest r (consecutive_frame seq payload)).1.total_len ≡ none)
unfolding ingest ingest_consecutive take_if_complete
ingest_completes r seq payload out total active h =
    ground
      (arith, length-take total (r.buffer ++ payload), take-append-drop total (r.buffer ++ payload))
