-- ===== src/Isotp/Tests.antt =====
-- Concrete runs of ISO-TP, after the tests of crates/cantools-isotp/src/lib.rs.
use cantools_rs.Prelude.{
  ℕ, ◌-◌, ◌/◌, ◌%◌, ◌≤◌, ◌≡◌, ◌≢◌, ◌↔◌, refl, none, some, List, [], ◌∷◌, ◌++◌, ok, err, IsOk,
  IsSome, Bytes, length, All, replicate, arith,
}
use cantools_rs.Isotp.{
  ProtocolDataUnit, single_frame, first_frame, consecutive_frame, sequence_number_mismatch, encode,
  segment, segment_loop, segment_fuelled, Reassembler, ingest, ingest_all,
}
use cantools_rs.Isotp.Encode.{frame_type, header_value, encode_header, encode_single_mistyped}
use cantools_rs.Isotp.Segment.{Fits, segment_diverges}
use cantools_rs.Isotp.RoundTrip.{completed, segment_reassembles}
use cantools_rs.Isotp.Reassembly.{IsValid, ingest-IsValid, ingest_consecutive_iff, ingest_completes}

abbrev payload : Bytes
payload = 0 ∷ 1 ∷ 2 ∷ 3 ∷ 4 ∷ 5 ∷ 6 ∷ 7 ∷ 8 ∷ 9 ∷ 10 ∷ 11 ∷ 12 ∷ 13 ∷ 14 ∷ []

abbrev units : List ProtocolDataUnit
units =
    first_frame 15 (0 ∷ 1 ∷ 2 ∷ 3 ∷ 4 ∷ 5 ∷ [])
    ∷ consecutive_frame 1 (6 ∷ 7 ∷ 8 ∷ 9 ∷ 10 ∷ 11 ∷ 12 ∷ [])
    ∷ consecutive_frame 2 (13 ∷ 14 ∷ [])
    ∷ []

-- Six of ten bytes have come.
abbrev waiting : Reassembler
waiting = record { total_len = some 10; next_seq = 1; buffer = 1 ∷ 2 ∷ 3 ∷ 4 ∷ 5 ∷ 6 ∷ [] }

segment-payload : segment payload 8 ≡ some units
unfolding segment segment_fuelled segment_loop
segment-payload = refl

segment_reassembles_example :
    (pdus : List ProtocolDataUnit) × (segment payload 8 ≡ some pdus)
    × All (Fits 8) pdus
    × ((ingest_all waiting pdus).0 ≡ completed (length pdus - 1) payload)
segment_reassembles_example = segment_reassembles payload 8 waiting (omega arith)

segment_diverges_example : segment_fuelled 1000 (5 ∷ []) 1 ≡ none
segment_diverges_example = segment_diverges 1000 (5 ∷ []) 1 (omega arith) (ground arith)

encode_header_example :
    (first : ℕ) × (rest : Bytes) × (encode (first_frame 300 (7 ∷ [])) 8 ≡ ok (first ∷ rest))
    × (first / 16 ≡ 1)
    × (header_value (first_frame 300 (7 ∷ [])) rest (first % 16) ≡ 300)
    × (length (first ∷ rest) ≤ 8)
encode_header_example =
    encode_header (first_frame 300 (7 ∷ [])) 8 (omega arith) (omega arith) (omega arith)

encode_single_mistyped_example : 48 / 16 ≢ frame_type (single_frame (replicate 48 0))
unfolding encode
encode_single_mistyped_example =
    encode_single_mistyped (replicate 48 0) 64 {first = 48} {rest = replicate 48 0} (omega arith)
      (omega arith) refl

ingest-IsValid_example : IsValid (ingest waiting (consecutive_frame 1 (7 ∷ []))).1
ingest-IsValid_example = ingest-IsValid waiting (consecutive_frame 1 (7 ∷ [])) (omega arith)

wrong_sequence : (ingest waiting (consecutive_frame 2 [])).0 ≡ err (sequence_number_mismatch 1 2)
unfolding ingest
wrong_sequence = refl

ingest_consecutive_iff_example :
    IsOk (ingest waiting (consecutive_frame 1 (7 ∷ []))).0
    ↔ (IsSome waiting.total_len × (◌≡◌ {A = ℕ} 1 1))
ingest_consecutive_iff_example = ingest_consecutive_iff waiting 1 (7 ∷ [])

abbrev last_bytes : Bytes
last_bytes = 7 ∷ 8 ∷ 9 ∷ 10 ∷ 11 ∷ []

abbrev whole : Bytes
whole = 1 ∷ 2 ∷ 3 ∷ 4 ∷ 5 ∷ 6 ∷ 7 ∷ 8 ∷ 9 ∷ 10 ∷ []

completes : (ingest waiting (consecutive_frame 1 last_bytes)).0 ≡ ok (some whole)
unfolding ingest
completes = refl

ingest_completes_example :
    (length whole ≡ 10)
    × (whole ++ (ingest waiting (consecutive_frame 1 last_bytes)).1.buffer
        ≡ waiting.buffer ++ last_bytes)
    × ((ingest waiting (consecutive_frame 1 last_bytes)).1.total_len ≡ none)
ingest_completes_example = ingest_completes waiting 1 last_bytes whole 10 refl completes
