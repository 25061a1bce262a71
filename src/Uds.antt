-- ===== src/Uds.antt =====
-- crates/cantools-uds/src/lib.rs and generated.rs: UDS requests and responses, and the generated
-- tables. The transport is a parameter: a state and what a call does to it.
pub mod Tables
pub mod Decode
mod Tests
use Prim.Native.String.{String}
use cantools_rs.Prelude.{
  ℕ, ◌-◌, Option, List, [], ◌∷◌, Result, ok, err, panic, ◌>>=◌, map_err, Bytes, find, ◌==◌,
  if◌then◌else◌,
}

pub data ServiceId : Type 0 where
  diagnostic_session_control ecu_reset read_data_by_identifier tester_present : ServiceId

-- `self as u8`
abbrev pub service_code : ServiceId → ℕ
service_code diagnostic_session_control = 0x10
service_code ecu_reset = 0x11
service_code read_data_by_identifier = 0x22
service_code tester_present = 0x3e

pub data NegativeResponseCode : Type 0 where
  service_not_supported conditions_not_correct sub_function_not_supported : NegativeResponseCode

abbrev pub response_code : NegativeResponseCode → ℕ
response_code service_not_supported = 0x11
response_code conditions_not_correct = 0x22
response_code sub_function_not_supported = 0x12

pub record GeneratedService : Type 0 where
  pub sid : ℕ
  pub name : String

pub record GeneratedNegativeResponse : Type 0 where
  pub code : ℕ
  pub name : String

abbrev pub generated_services : List GeneratedService
generated_services =
    record { sid = 0x10; name = "DiagnosticSessionControl" }
    ∷ record { sid = 0x11; name = "EcuReset" }
    ∷ record { sid = 0x22; name = "ReadDataByIdentifier" }
    ∷ record { sid = 0x3e; name = "TesterPresent" }
    ∷ []

abbrev pub generated_negative_responses : List GeneratedNegativeResponse
generated_negative_responses =
    record { code = 0x11; name = "ServiceNotSupported" }
    ∷ record { code = 0x12; name = "SubFunctionNotSupported" }
    ∷ record { code = 0x22; name = "ConditionsNotCorrect" }
    ∷ []

-- `ServiceId::generated` and `NegativeResponseCode::generated`
pub generated_service : ServiceId → Option GeneratedService
generated_service s = find (λ entry. entry.sid == service_code s) generated_services

pub generated_negative_response : NegativeResponseCode → Option GeneratedNegativeResponse
generated_negative_response c =
    find (λ entry. entry.code == response_code c) generated_negative_responses

pub record Request : Type 0 where
  pub service : ServiceId
  pub payload : Bytes

-- `Request::encode`
pub encode : Request → Bytes
encode r = service_code r.service ∷ r.payload

pub data Response : Type 0 where
  positive : (service : ServiceId) (payload : Bytes) → Response
  negative : (service : ServiceId) (code : NegativeResponseCode) → Response

pub data UdsError : Type 0 where
  payload_too_short : UdsError
  unknown_service : (raw : ℕ) → UdsError
  unknown_negative_response_code : (raw : ℕ) → UdsError

pub decode_service : ℕ → Result UdsError ServiceId
decode_service raw =
    if raw == 0x10
    then ok diagnostic_session_control
    else if raw == 0x11
    then ok ecu_reset
    else if raw == 0x22
    then ok read_data_by_identifier
    else if raw == 0x3e
    then ok tester_present
    else err (unknown_service raw)

pub decode_negative_response_code : ℕ → Result UdsError NegativeResponseCode
decode_negative_response_code raw =
    if raw == 0x11
    then ok service_not_supported
    else if raw == 0x12
    then ok sub_function_not_supported
    else if raw == 0x22
    then ok conditions_not_correct
    else err (unknown_negative_response_code raw)

decode_negative : Bytes → Result UdsError Response
unfolding decode_service decode_negative_response_code
decode_negative (_ ∷ sid ∷ code ∷ _) = do
  service ← decode_service sid
  reason ← decode_negative_response_code code
  ok (negative service reason)
decode_negative _ = err payload_too_short

-- `saturating_sub` is the subtraction of ℕ.
pub decode_response : Bytes → Result UdsError Response
unfolding decode_negative decode_service
decode_response [] = err payload_too_short
decode_response (response_sid ∷ rest) =
    if response_sid == 0x7f
    then decode_negative (response_sid ∷ rest)
    else do service ← decode_service (response_sid - 0x40); ok (positive service rest)

-- `trait Transport`: `S` is what the transport keeps.
pub record Transport (S E : Type 0) : Type 0 where
  pub call : S → Bytes → Result E Bytes × S

-- The two kinds of boxed error that `Client::send` returns.
pub data SendError (E : Type 0) : Type 0 where
  transport : E → SendError E
  decode : UdsError → SendError E

module _ {S E : Type 0} (t : Transport S E) where
  -- `Client::send`; the client is its transport.
  pub send : S → Request → Result (SendError E) Response × S
  send s request =
      let (answer, s') = t.call s (encode request) in
      (map_err transport answer >>= (λ payload. map_err decode (decode_response payload)), s')
