-- ===== src/Obd/Tests.antt =====
-- Concrete runs of the OBD crate, after the tests of crates/cantools-obd/src/lib.rs.
use cantools_rs.Prelude.{◌≡◌, [], ◌∷◌, ok, arith}
use cantools_rs.Prelude.Int.{pos}
use cantools_rs.Prelude.Float.{whole}
use cantools_rs.Obd.{engine_rpm, revolutions_per_minute, decode_current_data}
use cantools_rs.Obd.Decode.{decode_current_data-formula}

-- 0x1fa0 / 4 = 2024
decode_current_data-formula_example :
    decode_current_data whole engine_rpm (0x1f ∷ 0xa0 ∷ []) ≡ ok (revolutions_per_minute (pos 2024))
decode_current_data-formula_example =
    decode_current_data-formula whole engine_rpm (0x1f ∷ 0xa0 ∷ []) (omega arith)
