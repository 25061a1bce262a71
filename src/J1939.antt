-- ===== src/J1939.antt =====
-- crates/cantools-j1939/src/lib.rs and generated.rs: J1939 identifiers, address claims and the
-- generated table of parameter groups.
pub mod Identifier
mod Tests
use Prim.Native.String.{String}
use cantools_rs.Prelude.{
  ℕ, ◌/◌, ◌%◌, ◌^◌, bit_and, Option, none, some, List, [], ◌∷◌, Result, ok, err, find, leb, ltb,
  ◌==◌, if◌then◌else◌,
}
use cantools_rs.Core.{CanId}

pub data J1939Error : Type 0 where
  requires_extended_id : J1939Error

-- `Pgn` and `Name` wrap a `u32` and a `u64`.
abbrev pub Pgn : Type 0
Pgn = ℕ

abbrev pub Spn : Type 0
Spn = ℕ

abbrev pub Name : Type 0
Name = ℕ

pub record J1939Id : Type 0 where
  pub priority : ℕ
  pub pgn : Pgn
  pub source_address : ℕ
  pub destination_address : Option ℕ

-- The body of `J1939Id::from_can_id` behind its guard; `>>` divides and `as u8` keeps 8 bits.
pub from_raw : ℕ → J1939Id
from_raw raw =
    let priority = bit_and (raw / 2 ^ 26) 0x07 % 2 ^ 8 in
    let pf = bit_and (raw / 2 ^ 16) 0xff % 2 ^ 8 in
    let ps = bit_and (raw / 2 ^ 8) 0xff % 2 ^ 8 in
    let source_address = bit_and raw 0xff % 2 ^ 8 in
    let destination_address = if ltb pf 240 then some ps else none in
    let pgn =
      if ltb pf 240 then bit_and (raw / 2 ^ 8) 0x03ff00 else bit_and (raw / 2 ^ 8) 0x03ffff in
    record {
      priority = priority;
      pgn = pgn;
      source_address = source_address;
      destination_address = destination_address;
    }

pub from_can_id : CanId → Result J1939Error J1939Id
from_can_id id = if id.extended then ok (from_raw id.raw) else err requires_extended_id

pub data AddressClaimOutcome : Type 0 where
  keep_address lose_address : AddressClaimOutcome

pub resolve_address_claim : Name → Name → AddressClaimOutcome
resolve_address_claim local challenger = if leb local challenger then keep_address else lose_address

pub record GeneratedPgn : Type 0 where
  pub pgn : ℕ
  pub name : String

abbrev pub generated_pgns : List GeneratedPgn
generated_pgns =
    record { pgn = 0x00F004; name = "ElectronicEngineController1" }
    ∷ record { pgn = 0x00FEE9; name = "VehicleDirectionSpeed" }
    ∷ record { pgn = 0x00FEEB; name = "ComponentIdentification" }
    ∷ []

pub generated_pgn : Pgn → Option GeneratedPgn
generated_pgn pgn = find (λ entry. entry.pgn == pgn) generated_pgns
