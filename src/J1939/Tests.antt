-- ===== src/J1939/Tests.antt =====
-- Concrete runs of the J1939 crate, after the tests of crates/cantools-j1939/src/lib.rs.
use cantools_rs.Prelude.{◌≡◌, refl, true, none, ok, arith}
use cantools_rs.Core.{CanId}
use cantools_rs.J1939.{J1939Id, from_raw, from_can_id}
use cantools_rs.J1939.Identifier.{IsValid, compose, from_can_id_fields}

abbrev pdu2 : CanId
pdu2 = record { raw = 0x18fef100; extended = true }

decodes_pdu2 :
    from_can_id pdu2
    ≡ ok (record { priority = 6; pgn = 0xfef1; source_address = 0; destination_address = none })
unfolding from_can_id from_raw
decodes_pdu2 = refl

from_can_id_fields_example :
    (j : J1939Id) × (from_can_id pdu2 ≡ ok j) × (compose j ≡ 0x18fef100) × IsValid j
from_can_id_fields_example = from_can_id_fields pdu2 (omega arith) refl
