-- ===== src/Obd/Decode.antt =====
-- `decode_current_data`: the bytes that it needs, what it makes of them, and that it needs no more.
use cantools_rs.Prelude.{
  ℕ, ◌+◌, ◌*◌, ◌≡◌, [], ◌∷◌, IsSome, ok, err, IsByte, Bytes, All, length, get_or, arith, ltb,
  if◌then◌else◌,
}
use cantools_rs.Prelude.Bits.{shl-bit_or}
use cantools_rs.Prelude.Int.{pos, sub_ℕ}
use cantools_rs.Prelude.Float.{Float}
use cantools_rs.Obd.{
  CurrentDataPid, calculated_engine_load, engine_coolant_temperature, engine_rpm, vehicle_speed,
  pid_code, mode_code, current_data, generated_pid, Value, percent, celsius, revolutions_per_minute,
  kilometers_per_hour, payload_too_short, decode_current_data,
}

-- The number of data bytes of a PID.
abbrev pub width : CurrentDataPid → ℕ
width calculated_engine_load = 1
width engine_coolant_temperature = 1
width engine_rpm = 2
width vehicle_speed = 1

-- The big-endian number in the data bytes.
abbrev pub reading : CurrentDataPid → Bytes → ℕ
reading calculated_engine_load payload = get_or payload 0 0
reading engine_coolant_temperature payload = get_or payload 0 0
reading engine_rpm payload = get_or payload 0 0 * 256 + get_or payload 1 0
reading vehicle_speed payload = get_or payload 0 0

module _ (f64 : Float) where
  open f64 use {F, of_int, mul, div}

  -- The formulas of the OBD standard: A * 100 / 255, A - 40, (256 A + B) / 4 and A.
  abbrev pub formula : CurrentDataPid → ℕ → Value F
  formula calculated_engine_load n =
      percent (div (mul (of_int (pos n)) (of_int (pos 100))) (of_int (pos 255)))
  formula engine_coolant_temperature n = celsius (sub_ℕ n 40)
  formula engine_rpm n = revolutions_per_minute (div (of_int (pos n)) (of_int (pos 4)))
  formula vehicle_speed n = kilometers_per_hour n

  -- For a payload of bytes, `decode_current_data` fails exactly when there are fewer bytes than the
  -- PID has; otherwise it returns the PID's formula of the big-endian number in its first bytes,
  -- whatever follows them.
  pub decode_current_data-formula :
      (pid : CurrentDataPid) (payload : Bytes)
      → All IsByte payload
      → decode_current_data f64 pid payload ≡ (
          if ltb (length payload) (width pid)
          then err payload_too_short
          else ok (formula pid (reading pid payload)))
  unfolding decode_current_data
  decode_current_data-formula calculated_engine_load [] bytes = ground arith
  decode_current_data-formula calculated_engine_load (a ∷ rest) bytes = ground arith
  decode_current_data-formula engine_coolant_temperature [] bytes = ground arith
  decode_current_data-formula engine_coolant_temperature (a ∷ rest) bytes = ground arith
  decode_current_data-formula engine_rpm [] bytes = ground arith
  decode_current_data-formula engine_rpm (a ∷ []) bytes = ground arith
  decode_current_data-formula engine_rpm (a ∷ b ∷ rest) bytes = ground (arith, shl-bit_or 8 a b)
  decode_current_data-formula vehicle_speed [] bytes = ground arith
  decode_current_data-formula vehicle_speed (a ∷ rest) bytes = ground arith

-- Every PID that the crate decodes has an entry in the generated table, under its mode and code.
pub generated_pid_found :
    (pid : CurrentDataPid) → IsSome (generated_pid (mode_code current_data) (pid_code pid))
unfolding generated_pid
generated_pid_found calculated_engine_load = tt
generated_pid_found engine_coolant_temperature = tt
generated_pid_found engine_rpm = tt
generated_pid_found vehicle_speed = tt
