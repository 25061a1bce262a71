-- ===== src/Core/Tests.antt =====
-- Concrete runs of the CAN model, after the tests of crates/cantools-core/src/lib.rs.
use cantools_rs.Prelude.{◌+◌, ◌*◌, ◌<◌, ◌≡◌, refl, false, ok, err, Bytes, replicate, arith}
use cantools_rs.Prelude.Int.{pos}
use cantools_rs.Core.{
  CanId, CanFrame, FdFlags, data_frame, standard, invalid_can_id, from_system_time,
}
use cantools_rs.Core.Validation.{from_system_time_exact}

abbrev id : CanId
id = record { raw = 0x123; extended = false }

abbrev no_flags : FdFlags
no_flags = record { bit_rate_switch = false; error_state_indicator = false }

abbrev eight : Bytes
eight = replicate 8 0

abbrev frame : CanFrame
frame = record { id = id; class = data_frame; payload = eight; fd = false; fd_flags = no_flags }

standard_bounds :
    (standard 0x7ff ≡ ok (record { raw = 0x7ff; extended = false }))
    × (standard 0x800 ≡ err (invalid_can_id 0x800 "standard identifier"))
unfolding standard
standard_bounds = (refl, refl)

from_system_time_exact_example : (2 * 1_000_000_000 + 7 ≡ 2_000_000_007) × (7 < 1_000_000_000)
unfolding from_system_time
from_system_time_exact_example =
    from_system_time_exact 2_000_000_007 {t = record { seconds = pos 2; nanos = 7 }} (omega arith)
      refl
