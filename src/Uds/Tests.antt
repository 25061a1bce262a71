-- ===== src/Uds/Tests.antt =====
-- Concrete runs of the UDS codec, after the tests of crates/cantools-uds/src/lib.rs.
use cantools_rs.Prelude.{
  ℕ, ◌+◌, ◌==◌, ◌≡◌, ◌↔◌, refl, [], ◌∷◌, ok, err, panic, Bytes, if◌then◌else◌,
}
use cantools_rs.Uds.{
  read_data_by_identifier, service_not_supported, Request, Response, transport, positive, negative,
  decode_response, Transport, send,
}
use cantools_rs.Uds.Decode.{Encodes, decode_response_iff, send_iff}

decodes_positive :
    decode_response (0x62 ∷ 0xf1 ∷ 0x90 ∷ [])
    ≡ ok (positive read_data_by_identifier (0xf1 ∷ 0x90 ∷ []))
unfolding decode_response
decodes_positive = refl

decodes_negative :
    decode_response (0x7f ∷ 0x22 ∷ 0x11 ∷ [])
    ≡ ok (negative read_data_by_identifier service_not_supported)
unfolding decode_response
decodes_negative = refl

decode_response_iff_example :
    (decode_response (0x62 ∷ []) ≡ ok (positive read_data_by_identifier []))
    ↔ Encodes (positive read_data_by_identifier []) (0x62 ∷ [])
decode_response_iff_example = decode_response_iff (0x62 ∷ []) (positive read_data_by_identifier [])

-- A transport that counts its calls and answers only one request.
abbrev server : Transport ℕ ℕ
server = record {
  call = λ calls request. elim request [
    | [] ↦ (err 0, calls + 1)
    | ◌∷◌ first rest ↦ (if first == 0x22 then ok (0x62 ∷ rest) else err 1, calls + 1)
  ];
}

abbrev request : Request
request = record { service = read_data_by_identifier; payload = 0xf1 ∷ [] }

send_iff_example :
    ((send server 4 request).1 ≡ 5)
    × ((r : Response)
        → ((send server 4 request).0 ≡ ok r)
          ↔ ((bytes : Bytes) × ((server.call 4 (0x22 ∷ 0xf1 ∷ [])).0 ≡ ok bytes) × Encodes r bytes))
    × ((e : ℕ)
        → ((send server 4 request).0 ≡ err (transport e))
          ↔ ((server.call 4 (0x22 ∷ 0xf1 ∷ [])).0 ≡ err e))
    × (((send server 4 request).0 ≡ panic) ↔ ((server.call 4 (0x22 ∷ 0xf1 ∷ [])).0 ≡ panic))
send_iff_example = send_iff server 4 request
