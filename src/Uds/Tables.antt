-- ===== src/Uds/Tables.antt =====
-- The decoders agree with the generated tables.
use cantools_rs.Prelude.{ℕ, ◌≡◌, ◌↔◌, IsOk, IsSome, ok, find, ◌==◌, arith}
use cantools_rs.Uds.{
  ServiceId, diagnostic_session_control, service_code, NegativeResponseCode, response_code,
  generated_services, generated_negative_responses, decode_service, decode_negative_response_code,
}

-- A byte decodes as a service, or as a negative response code, exactly when the generated table
-- has an entry for it.
pub decode-IsOk_tables :
    (raw : ℕ)
    → (IsOk (decode_service raw) ↔ IsSome (find (λ entry. entry.sid == raw) generated_services))
      × (IsOk (decode_negative_response_code raw)
          ↔ IsSome (find (λ entry. entry.code == raw) generated_negative_responses))
unfolding decode_service decode_negative_response_code
decode-IsOk_tables raw = ground arith

pub decode_service_iff :
    (raw : ℕ) (s : ServiceId) → (decode_service raw ≡ ok s) ↔ (raw ≡ service_code s)
unfolding decode_service
decode_service_iff raw diagnostic_session_control = ground arith
decode_service_iff raw s = ground arith

pub decode_negative_response_code_iff :
    (raw : ℕ) (c : NegativeResponseCode)
    → (decode_negative_response_code raw ≡ ok c) ↔ (raw ≡ response_code c)
unfolding decode_negative_response_code
decode_negative_response_code_iff raw c = ground arith
