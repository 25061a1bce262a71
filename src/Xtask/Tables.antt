-- ===== src/Xtask/Tables.antt =====
-- crates/xtask/src/main.rs: the texts of the generated tables. In the source a `\` at the end of a line
-- takes the line break and the indentation of the next line away. `debug` is `{:?}` of a text.
use cantools_rs.Prelude.{ℕ, Option, List, [], ◌∷◌, ◌++◌, map, Result, ok, ◌>>=◌, or_panic}
use cantools_rs.Prelude.Hex.{format_hex}
use cantools_rs.Prelude.Text.{codes}
use cantools_rs.Core.{Text}

pub record NamedByte : Type 0 where
  pub sid : Option ℕ
  pub code : Option ℕ
  pub name : Text

pub record NamedUnitByte : Type 0 where
  pub pid : ℕ
  pub name : Text
  pub unit : Text

pub record NamedPgn : Type 0 where
  pub pgn : ℕ
  pub name : Text

pub record UdsSpec : Type 0 where
  pub services : List NamedByte
  pub negative_responses : List NamedByte

pub record ObdSpec : Type 0 where
  pub mode1 : List NamedUnitByte
  pub mode9 : List NamedUnitByte

pub record J1939Spec : Type 0 where
  pub pgns : List NamedPgn

-- `.join("\n")`
abbrev pub join_lines : List Text → Text
join_lines [] = []
join_lines (text ∷ []) = text
join_lines (text ∷ next ∷ rest) = text ++ codes "\n" ++ join_lines (next ∷ rest)

unfoldable pub uds_head : Text
uds_head =
    codes "//! Generated UDS tables. Regenerate with `cargo run -p xtask -- codegen`.\n"
    ++ codes "\n"
    ++ codes "/// Generated UDS service metadata.\n"
    ++ codes "#[derive(Debug, Clone, Copy, PartialEq, Eq)]\n"
    ++ codes "pub struct GeneratedService {\n"
    ++ codes "/// ISO 14229 service identifier.\n"
    ++ codes "pub sid: u8,\n"
    ++ codes "/// Human-readable service name.\n"
    ++ codes "pub name: &'static str,\n"
    ++ codes "}\n"
    ++ codes "\n"
    ++ codes "/// Generated UDS negative response metadata.\n"
    ++ codes "#[derive(Debug, Clone, Copy, PartialEq, Eq)]\n"
    ++ codes "pub struct GeneratedNegativeResponse {\n"
    ++ codes "/// ISO 14229 negative response code.\n"
    ++ codes "pub code: u8,\n"
    ++ codes "/// Human-readable negative response name.\n"
    ++ codes "pub name: &'static str,\n"
    ++ codes "}\n"
    ++ codes "\n"
    ++ codes "/// Generated UDS services keyed by service identifier.\n"
    ++ codes "pub const GENERATED_SERVICES: &[GeneratedService] = &[\n"

unfoldable pub uds_middle : Text
uds_middle =
    codes "\n"
    ++ codes "];\n"
    ++ codes "\n"
    ++ codes "/// Generated UDS negative responses keyed by response code.\n"
    ++ codes "pub const GENERATED_NEGATIVE_RESPONSES: &[GeneratedNegativeResponse] = &[\n"

unfoldable pub obd_head : Text
obd_head =
    codes "//! Generated OBD tables. Regenerate with `cargo run -p xtask -- codegen`.\n"
    ++ codes "\n"
    ++ codes "/// Generated OBD PID metadata.\n"
    ++ codes "#[derive(Debug, Clone, Copy, PartialEq, Eq)]\n"
    ++ codes "pub struct GeneratedPid {\n"
    ++ codes "/// OBD service mode.\n"
    ++ codes "pub mode: u8,\n"
    ++ codes "/// OBD parameter identifier.\n"
    ++ codes "pub pid: u8,\n"
    ++ codes "/// Human-readable PID name.\n"
    ++ codes "pub name: &'static str,\n"
    ++ codes "/// Engineering unit for decoded values.\n"
    ++ codes "pub unit: &'static str,\n"
    ++ codes "}\n"
    ++ codes "\n"
    ++ codes "/// Generated OBD PIDs keyed by service mode and PID.\n"
    ++ codes "pub const GENERATED_PIDS: &[GeneratedPid] = &[\n"

unfoldable pub j1939_head : Text
j1939_head =
    codes "//! Generated J1939 tables. Regenerate with `cargo run -p xtask -- codegen`.\n"
    ++ codes "\n"
    ++ codes "/// Generated J1939 PGN metadata.\n"
    ++ codes "#[derive(Debug, Clone, Copy, PartialEq, Eq)]\n"
    ++ codes "pub struct GeneratedPgn {\n"
    ++ codes "/// Parameter Group Number.\n"
    ++ codes "pub pgn: u32,\n"
    ++ codes "/// Human-readable PGN name.\n"
    ++ codes "pub name: &'static str,\n"
    ++ codes "}\n"
    ++ codes "\n"
    ++ codes "/// Generated J1939 PGN definitions keyed by PGN.\n"
    ++ codes "pub const GENERATED_PGNS: &[GeneratedPgn] = &[\n"

unfoldable pub table_end : Text
table_end = codes "\n" ++ codes "];\n"

module _ (debug : Text → Text) where
  -- `entry.sid.expect("sid")`
  unfoldable pub service_line : {E : Type 0} → NamedByte → Result E Text
  service_line entry = do
    sid ← or_panic entry.sid
    ok (
        codes "    GeneratedService { sid: 0x"
        ++ format_hex 2 sid
        ++ codes ", name: "
        ++ debug entry.name
        ++ codes " },")

  unfoldable pub response_line : {E : Type 0} → NamedByte → Result E Text
  response_line entry = do
    code ← or_panic entry.code
    ok (
        codes "    GeneratedNegativeResponse { code: 0x"
        ++ format_hex 2 code
        ++ codes ", name: "
        ++ debug entry.name
        ++ codes " },")

  abbrev pub all_lines : {E A : Type 0} → (A → Result E Text) → List A → Result E (List Text)
  all_lines line [] = ok []
  all_lines line (entry ∷ rest) = do
    text ← line entry
    later ← all_lines line rest
    ok (text ∷ later)

  unfoldable pub uds_generated : {E : Type 0} → UdsSpec → Result E Text
  unfolding service_line response_line
  uds_generated uds = do
    services ← all_lines service_line uds.services
    responses ← all_lines response_line uds.negative_responses
    ok (uds_head ++ join_lines services ++ uds_middle ++ join_lines responses ++ table_end)

  abbrev pub pid_line : (mode : Text) → NamedUnitByte → Text
  pid_line mode entry =
      codes "    GeneratedPid { mode: "
      ++ mode
      ++ codes ", pid: 0x"
      ++ format_hex 2 entry.pid
      ++ codes ", name: "
      ++ debug entry.name
      ++ codes ", unit: "
      ++ debug entry.unit
      ++ codes " },"

  unfoldable pub obd_generated : ObdSpec → Text
  obd_generated obd =
      obd_head
      ++ join_lines
          (map (pid_line (codes "0x01")) obd.mode1 ++ map (pid_line (codes "0x09")) obd.mode9)
      ++ table_end

  abbrev pub pgn_line : NamedPgn → Text
  pgn_line entry =
      codes "    GeneratedPgn { pgn: 0x"
      ++ format_hex 6 entry.pgn
      ++ codes ", name: "
      ++ debug entry.name
      ++ codes " },"

  unfoldable pub j1939_generated : J1939Spec → Text
  j1939_generated j1939 = j1939_head ++ join_lines (map pgn_line j1939.pgns) ++ table_end
