-- ===== src/J1939/Identifier.antt =====
-- The fields of a J1939 identifier, and the identifier that they make up.
use cantools_rs.Prelude.{
  ℕ, ◌+◌, ◌*◌, ◌/◌, ◌%◌, ◌^◌, ◌≤◌, ◌<◌, bit_and, ◌≡◌, ◌≢◌, ◌⊎◌, ◌↔◌, refl, ◌∙◌, ap, true, Option,
  none, some, ok, arith, All,
}
use cantools_rs.Prelude.Bits.{bit_and_low, bit_and-shl}
use cantools_rs.Core.{CanId}
use cantools_rs.Core.Validation.{IsValidId}
use cantools_rs.J1939.{
  J1939Id, Name, from_raw, from_can_id, keep_address, lose_address, resolve_address_claim,
  GeneratedPgn, generated_pgns, generated_pgn,
}

-- The masks of `from_raw`, as remainders.
mask_pgn : (x : ℕ) → bit_and x 0x03ff00 ≡ x / 256 % 1024 * 256
mask_pgn x = bit_and-shl 8 x 0x3ff ∙ ap (λ t. t * 256) (bit_and_low 10 (x / 256))

-- The destination of a PDU1 identifier takes the place of the low byte of the PGN.
abbrev pub destination : Option ℕ → ℕ
destination none = 0
destination (some address) = address

abbrev pub compose : J1939Id → ℕ
compose id =
    id.priority * 2 ^ 26
    + id.pgn * 2 ^ 8
    + destination id.destination_address * 2 ^ 8
    + id.source_address

-- Each field is in its range, and a group is addressed exactly when its format byte is below 240.
pub record IsValid (id : J1939Id) : Type 0 where
  pub priority_fits : id.priority < 8
  pub pgn_fits : id.pgn < 2 ^ 18
  pub source_fits : id.source_address < 256
  pub destination_fits : destination id.destination_address < 256
  pub addressed :
      ((id.pgn / 256 % 256 < 240)
        × (id.pgn % 256 ≡ 0)
        × (id.destination_address ≡ some (destination id.destination_address)))
      ⊎ ((240 ≤ id.pgn / 256 % 256) × (id.destination_address ≡ none))

from_raw_sum : (raw : ℕ) → raw < 2 ^ 29 → compose (from_raw raw) ≡ raw
unfolding from_raw
from_raw_sum raw h = ground (
  arith,
  bit_and_low 3 (raw / 2 ^ 26),
  bit_and_low 8 (raw / 2 ^ 16),
  bit_and_low 8 (raw / 2 ^ 8),
  bit_and_low 8 raw,
  bit_and_low 18 (raw / 2 ^ 8),
  mask_pgn (raw / 2 ^ 8),
)

from_raw-IsValid : (raw : ℕ) → raw < 2 ^ 29 → IsValid (from_raw raw)
unfolding from_raw
from_raw-IsValid raw h = ground (
  arith,
  bit_and_low 3 (raw / 2 ^ 26),
  bit_and_low 8 (raw / 2 ^ 16),
  bit_and_low 8 (raw / 2 ^ 8),
  bit_and_low 8 raw,
  bit_and_low 18 (raw / 2 ^ 8),
  mask_pgn (raw / 2 ^ 8),
)

-- From a valid extended identifier `from_can_id` reads fields that are in their ranges and make up
-- the identifier again.
pub from_can_id_fields :
    (id : CanId)
    → IsValidId id
    → id.extended ≡ true
    → (j : J1939Id) × (from_can_id id ≡ ok j) × (compose j ≡ id.raw) × IsValid j
unfolding from_can_id
from_can_id_fields id fits ext =
    let small : id.raw < 2 ^ 29 = ground arith in
    (from_raw id.raw, ground arith, from_raw_sum id.raw small, from_raw-IsValid id.raw small)

-- Of two different NAMEs that claim one address, exactly the lower keeps it, from both sides.
pub resolve_address_claim_one :
    (local challenger : Name)
    → local ≢ challenger
    → ((resolve_address_claim local challenger ≡ keep_address) ↔ (local < challenger))
      × ((resolve_address_claim challenger local ≡ lose_address)
          ↔ (resolve_address_claim local challenger ≡ keep_address))
unfolding resolve_address_claim
resolve_address_claim_one local challenger ne = ground arith

-- An identifier sent for a group of the generated table.
abbrev pub carries : ℕ → GeneratedPgn → ℕ → CanId
carries priority entry source = record {
  raw = priority * 2 ^ 26 + entry.pgn * 2 ^ 8 + source;
  extended = true;
}

entry_found :
    (entry : GeneratedPgn) (priority source : ℕ)
    → priority < 8
    → source < 256
    → entry.pgn < 2 ^ 16
    → 240 ≤ entry.pgn / 256
    → (from_raw (carries priority entry source).raw).pgn ≡ entry.pgn
unfolding from_raw
entry_found entry priority source hp hs small high =
    let raw : ℕ = (carries priority entry source).raw in
    ground (arith, bit_and_low 18 (raw / 2 ^ 8), bit_and_low 8 (raw / 2 ^ 16))

-- Every group of the generated table is looked up by the PGN that `from_can_id` reads from an
-- identifier which carries it, at every priority below 8 and source address below 256.
pub generated_pgn-from_can_id :
    (priority source : ℕ)
    → priority < 8
    → source < 256
    → All
        (λ entry.
          (j : J1939Id) × (from_can_id (carries priority entry source) ≡ ok j)
          × (generated_pgn j.pgn ≡ some entry))
        generated_pgns
unfolding from_can_id generated_pgn
generated_pgn-from_can_id priority source hp hs = (
  (from_raw (raw 0xf004), refl, rw (read 0xf004 (omega arith))),
  (
    (from_raw (raw 0xfee9), refl, rw (read 0xfee9 (omega arith))),
    ((from_raw (raw 0xfeeb), refl, rw (read 0xfeeb (omega arith))), tt),
  ),
)
  where
    raw : ℕ → ℕ
    raw pgn = priority * 2 ^ 26 + pgn * 2 ^ 8 + source

    read : (pgn : ℕ) → (240 ≤ pgn / 256) × (pgn < 2 ^ 16) → (from_raw (raw pgn)).pgn ≡ pgn
    read pgn h = entry_found (record { pgn = pgn; name = "" }) priority source hp hs h.1 h.0
