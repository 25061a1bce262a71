-- ===== src/Xtask/Codegen.antt =====
-- crates/xtask/src/main.rs: `codegen`. The files of the repository are parameters, and `toml` parses the
-- specifications.
use cantools_rs.Prelude.{Result, map_err}
use cantools_rs.Prelude.Effect.{Step, ◌>>=◌, lift}
use cantools_rs.Prelude.Text.{codes}
use cantools_rs.Core.{Text}
use cantools_rs.Codec.Blf.File.{err_as}
use cantools_rs.Xtask.Files.{TaskError, failed, Files, write_if_changed}
use cantools_rs.Xtask.Tables.{
  UdsSpec, ObdSpec, J1939Spec, uds_generated, obd_generated, j1939_generated,
}

-- `toml::from_str`, `{:?}`, and `root.join`.
pub record Formats (Path' E : Type 0) : Type 0 where
  pub uds : Text → Result E UdsSpec
  pub obd : Text → Result E ObdSpec
  pub j1939 : Text → Result E J1939Spec
  pub debug : Text → Text
  pub at : Text → Path'

module _ {S Path' E : Type 0} (files : Files S Path' E) (formats : Formats Path' E) where
  -- `toml::from_str(&fs::read_to_string(root.join(name))?)?`
  abbrev pub load : {A : Type 0} → (Text → Result E A) → Text → Step S (TaskError Path' E) A
  load parse name = do
    content ← λ s. (map_err failed (files.read (formats.at name) s), s)
    lift (map_err failed (parse content))

  abbrev pub write_table : Text → Text → Step S (TaskError Path' E) (Unit {0})
  write_table name content = err_as failed (write_if_changed files (formats.at name) content)

  unfoldable pub codegen : Step S (TaskError Path' E) (Unit {0})
  codegen = do
    uds ← load formats.uds (codes "spec-data/uds/services.toml")
    obd ← load formats.obd (codes "spec-data/obd/pids.toml")
    j1939 ← load formats.j1939 (codes "spec-data/j1939/pgns.toml")
    uds_text ← lift (uds_generated formats.debug uds)
    first ← write_table (codes "crates/cantools-uds/src/generated.rs") uds_text
    second ←
        write_table (codes "crates/cantools-obd/src/generated.rs") (obd_generated formats.debug obd)
    write_table (codes "crates/cantools-j1939/src/generated.rs")
        (j1939_generated formats.debug j1939)
