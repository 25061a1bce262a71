-- ===== src/Obd.antt =====
-- crates/cantools-obd/src/lib.rs and generated.rs: OBD values and the generated table of PIDs.
-- `f64` is a parameter: a type with the conversion and the operations that the crate uses.
pub mod Decode
mod Tests
use Prim.Native.String.{String}
use cantools_rs.Prelude.{
  ℕ, ◌+◌, ◌-◌, ◌*◌, ◌%◌, ◌^◌, bit_or, Option, none, some, List, [], ◌∷◌, ◌&&◌, Result, ok, err,
  Bytes, find, ◌==◌,
}
use cantools_rs.Prelude.Int.{ℤ, pos, sub_ℕ}
use cantools_rs.Prelude.Float.{Float}

pub data Mode : Type 0 where
  current_data vehicle_information : Mode

abbrev pub mode_code : Mode → ℕ
mode_code current_data = 0x01
mode_code vehicle_information = 0x09

pub data CurrentDataPid : Type 0 where
  calculated_engine_load engine_coolant_temperature engine_rpm vehicle_speed : CurrentDataPid

abbrev pub pid_code : CurrentDataPid → ℕ
pid_code calculated_engine_load = 0x04
pid_code engine_coolant_temperature = 0x05
pid_code engine_rpm = 0x0c
pid_code vehicle_speed = 0x0d

pub record GeneratedPid : Type 0 where
  pub mode : ℕ
  pub pid : ℕ
  pub name : String
  pub unit : String

abbrev pub generated_pids : List GeneratedPid
generated_pids =
    record { mode = 0x01; pid = 0x04; name = "CalculatedEngineLoad"; unit = "%" }
    ∷ record { mode = 0x01; pid = 0x05; name = "EngineCoolantTemperature"; unit = "C" }
    ∷ record { mode = 0x01; pid = 0x0c; name = "EngineRpm"; unit = "rpm" }
    ∷ record { mode = 0x01; pid = 0x0d; name = "VehicleSpeed"; unit = "km/h" }
    ∷ record { mode = 0x09; pid = 0x02; name = "Vin"; unit = "" }
    ∷ []

pub generated_pid : ℕ → ℕ → Option GeneratedPid
generated_pid mode pid = find (λ entry. entry.mode == mode && entry.pid == pid) generated_pids

-- `F` stands for `f64`; `Text` holds the bytes of a string.
pub data Value (F : Type 0) : Type 0 where
  percent : F → Value F
  celsius : ℤ → Value F
  revolutions_per_minute : F → Value F
  kilometers_per_hour : ℕ → Value F
  text : Bytes → Value F

pub data ObdError : Type 0 where
  payload_too_short : ObdError
  unsupported_pid : (pid : ℕ) → ObdError

module _ (f64 : Float) where
  open f64 use {F, of_int, mul, div}

  decode_load : Bytes → Result ObdError (Value F)
  decode_load [] = err payload_too_short
  decode_load (byte ∷ _) =
      ok (percent (div (mul (of_int (pos byte)) (of_int (pos 100))) (of_int (pos 255))))

  -- `(*byte as i16) - 40`
  decode_coolant : Bytes → Result ObdError (Value F)
  decode_coolant [] = err payload_too_short
  decode_coolant (byte ∷ _) = ok (celsius (sub_ℕ byte 40))

  -- `u16::from(payload[0]) << 8` keeps 16 bits.
  decode_rpm : Bytes → Result ObdError (Value F)
  decode_rpm (high ∷ low ∷ _) =
      let raw = bit_or (high * 2 ^ 8 % 2 ^ 16) low in
      ok (revolutions_per_minute (div (of_int (pos raw)) (of_int (pos 4))))
  decode_rpm _ = err payload_too_short

  decode_speed : Bytes → Result ObdError (Value F)
  decode_speed [] = err payload_too_short
  decode_speed (byte ∷ _) = ok (kilometers_per_hour byte)

  pub decode_current_data : CurrentDataPid → Bytes → Result ObdError (Value F)
  unfolding decode_load decode_coolant decode_rpm decode_speed
  decode_current_data calculated_engine_load payload = decode_load payload
  decode_current_data engine_coolant_temperature payload = decode_coolant payload
  decode_current_data engine_rpm payload = decode_rpm payload
  decode_current_data vehicle_speed payload = decode_speed payload

pub data VehicleInformationPid : Type 0 where
  vin : VehicleInformationPid

-- `String::from_utf8_lossy` and `str::trim` of the standard library are parameters.
pub decode_vehicle_information :
    {F : Type 0}
    → (from_utf8_lossy : Bytes → Bytes) → (trim : Bytes → Bytes) → VehicleInformationPid
    → Bytes
    → Result ObdError (Value F)
decode_vehicle_information from_utf8_lossy trim vin [] = err payload_too_short
decode_vehicle_information from_utf8_lossy trim vin (byte ∷ rest) =
    ok (text (trim (from_utf8_lossy (byte ∷ rest))))
