-- ===== src/Xtask/Process.antt =====
-- crates/xtask/src/main.rs: the commands that the tasks start, here and in the OrbStack machine. A process
-- is a parameter; the root of the repository is its text.
use cantools_rs.Prelude.{ℕ, Bool, Option, none, some, List, [], ◌∷◌, ◌++◌, Bytes, if◌then◌else◌}
use cantools_rs.Prelude.Effect.{Step, ◌>>=◌, return, throw}
use cantools_rs.Prelude.Text.{codes}
use cantools_rs.Core.{Text}
use cantools_rs.Cli.{join_spaces}
use cantools_rs.Codec.Blf.File.{err_as}
use cantools_rs.Xtask.Files.{TaskError, failed, bailed, in_context}
use cantools_rs.Xtask.Shell.{orb_repo_script, orb_args}

pub record Output : Type 0 where
  pub success : Bool
  pub stdout : Bytes
  pub stderr : Bytes

-- `Command::status`, `output`, `spawn` and `wait_with_output`, in a directory; `contains` is that of `str`.
pub record Processes (S E : Type 0) : Type 1 where
  pub Child : Type 0
  pub status : (root program : Text) → List Text → Step S E Bool
  pub output : (root program : Text) → List Text → Step S E Output
  pub spawn : (root program : Text) → List Text → Step S E Child
  pub wait_with_output : Child → Step S E Output
  pub sleep_secs : ℕ → S → S
  pub println : Text → S → S
  pub eprintln : Text → S → S
  pub from_utf8_lossy : Bytes → Text
  pub trim : Text → Text
  pub contains : Text → Text → Bool
  -- `fs::metadata` and `fs::set_permissions` with the mode 0o755.
  pub metadata : Text → Step S E (Unit {0})
  pub set_executable : Text → Step S E (Unit {0})

abbrev pub command_string : Text → List Text → Text
command_string program args = join_spaces (program ∷ args)

abbrev pub Task : (S Path' E A : Type 0) → Type 0
Task S Path' E A = Step S (TaskError Path' E) A

abbrev pub context : {S Path' E A : Type 0} → Text → Step S E A → Task S Path' E A
context text m = err_as (λ e. in_context text (failed e)) m

abbrev pub in_task : {S Path' E A : Type 0} → Text → Task S Path' E A → Task S Path' E A
in_task text m = err_as (in_context text) m

abbrev pub bail_unless : {S Path' E : Type 0} → Bool → Text → Task S Path' E (Unit {0})
bail_unless success text = if success then return tt else throw (bailed text)

module _ {S Path' E : Type 0} (processes : Processes S E) (root : Text) where
  open processes use {status, output, from_utf8_lossy}

  unfoldable pub run_command_in : Text → List Text → Task S Path' E (Unit {0})
  run_command_in program args = do
    success ←
        context (codes "failed to start " ++ command_string program args) (status root program args)
    bail_unless success (codes "command failed: " ++ command_string program args)

  unfoldable pub command_output_in : Text → List Text → Task S Path' E Output
  command_output_in program args =
      context (codes "failed to start " ++ command_string program args) (output root program args)

  unfoldable pub run_orb_script : Option Text → Text → Task S Path' E (Unit {0})
  unfolding run_command_in
  run_orb_script user script =
      run_command_in (codes "orb") (orb_args user (orb_repo_script root script))

  unfoldable pub orb_output : Option Text → Text → Task S Path' E Output
  unfolding command_output_in
  orb_output user script =
      command_output_in (codes "orb") (orb_args user (orb_repo_script root script))

  unfoldable pub ensure_orb : Task S Path' E (Unit {0})
  unfolding command_output_in
  ensure_orb = do
    result ←
        in_task (codes "OrbStack CLI is required for local Linux validation")
          (command_output_in (codes "orb") (codes "--help" ∷ []))
    bail_unless result.success
        (codes "OrbStack CLI is installed but unavailable:\n" ++ from_utf8_lossy result.stderr)

  unfoldable pub ensure_orb_machine : Task S Path' E (Unit {0})
  unfolding orb_output command_output_in
  ensure_orb_machine = do
    result ←
        in_task (codes "OrbStack machine `debian` is required for local Linux validation")
          (orb_output none (codes "true"))
    bail_unless result.success
        (codes "OrbStack machine `debian` is unavailable:\n" ++ from_utf8_lossy result.stderr)

  unfoldable pub ensure_orb_cargo_deny : Task S Path' E (Unit {0})
  unfolding orb_output command_output_in
  ensure_orb_cargo_deny = do
    result ←
        in_task (codes "failed to probe cargo-deny in OrbStack Debian")
          (orb_output none (codes "cargo deny --version"))
    bail_unless result.success (
        codes
          "cargo-deny is required inside OrbStack Debian for `ci-linux-local`.\nInstall it with:\norb -m debian sh -lc 'if [ -f \"$HOME/.cargo/env\" ]; then . \"$HOME/.cargo/env\"; fi; cargo install cargo-deny --locked'\n\nstderr:\n"
        ++ from_utf8_lossy result.stderr)

  unfoldable pub provision_vcan : Task S Path' E (Unit {0})
  unfolding run_orb_script run_command_in
  provision_vcan = in_task (codes "failed to provision vcan0 in OrbStack Debian") (
      run_orb_script (some (codes "root")) (
        codes
          "modprobe vcan || true; ip link add dev vcan0 type vcan || true; ip link set up vcan0"))
