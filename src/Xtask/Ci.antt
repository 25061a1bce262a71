-- ===== src/Xtask/Ci.antt =====
-- crates/xtask/src/main.rs: the checks of the repository, the hooks, and `main`.
use cantools_rs.Prelude.{Option, none, some, [], ◌∷◌, ◌++◌, Bytes, if◌then◌else◌}
use cantools_rs.Prelude.Effect.{◌>>=◌, return, throw}
use cantools_rs.Prelude.Text.{codes, same_bytes}
use cantools_rs.Core.{Text}
use cantools_rs.Xtask.Files.{bailed}
use cantools_rs.Xtask.Shell.{orb_repo_script}
use cantools_rs.Xtask.Process.{
  Output, Processes, Task, context, in_task, bail_unless, run_command_in, command_output_in,
  run_orb_script, orb_output, ensure_orb, ensure_orb_machine, ensure_orb_cargo_deny, provision_vcan,
}

abbrev pub both_streams : (Bytes → Text) → Text → Output → Text
both_streams from_utf8_lossy head result =
    head
    ++ codes "\nstdout:\n"
    ++ from_utf8_lossy result.stdout
    ++ codes "\nstderr:\n"
    ++ from_utf8_lossy result.stderr

module _ {S Path' E : Type 0} (processes : Processes S E) (root : Text) where
  open processes use {
    spawn, wait_with_output, sleep_secs, println, eprintln, from_utf8_lossy, trim, contains,
    metadata, set_executable,
  }

  unfoldable pub run_socketcan_smoke_test : Task S Path' E (Unit {0})
  run_socketcan_smoke_test = do
    dump ← context (codes "failed to start SocketCAN smoke-test receiver in OrbStack Debian") (
        spawn root (codes "orb") (
          codes "-m"
          ∷ codes "debian"
          ∷ codes "sh"
          ∷ codes "-lc"
          ∷ orb_repo_script root
              (codes "timeout 20s target/debug/cantools dump --interface vcan0 --count 1")
          ∷ []))
    slept ← λ s. return tt (sleep_secs 1 s)
    sent ← in_task (codes "failed to send SocketCAN smoke-test frame in OrbStack Debian") (
        orb_output processes root none
          (codes "target/debug/cantools send --interface vcan0 --id 123 --data 01020304"))
    sent_ok ←
        bail_unless sent.success
          (both_streams from_utf8_lossy (codes "SocketCAN smoke-test sender failed:") sent)
    received ←
        context (codes "failed waiting for SocketCAN smoke-test receiver") (wait_with_output dump)
    received_ok ←
        bail_unless received.success
          (both_streams from_utf8_lossy (codes "SocketCAN smoke-test receiver failed:") received)
    bail_unless (contains (from_utf8_lossy received.stdout) (codes "123 [ 4] 01 02 03 04")) (
        codes "SocketCAN smoke-test receiver did not report the injected frame:\n"
        ++ from_utf8_lossy received.stdout)

  unfoldable pub ci_hosted : Task S Path' E (Unit {0})
  ci_hosted = do
    formatted ← run_command_in processes root (codes "cargo") (codes "fmt" ∷ codes "--check" ∷ [])
    linted ← run_command_in processes root (codes "cargo") (
        codes "clippy"
        ∷ codes "--workspace"
        ∷ codes "--all-targets"
        ∷ codes "--"
        ∷ codes "-D"
        ∷ codes "warnings"
        ∷ [])
    run_command_in processes root (codes "cargo") (codes "test" ∷ codes "--workspace" ∷ [])

  unfoldable pub ci_linux_local : Task S Path' E (Unit {0})
  unfolding run_socketcan_smoke_test
  ci_linux_local = do
    orb ← ensure_orb processes root
    machine ← ensure_orb_machine processes root
    deny ← ensure_orb_cargo_deny processes root
    vcan ← provision_vcan processes root
    built ← run_orb_script processes root none (codes "cargo build --workspace")
    tested ← run_orb_script processes root none (codes "cargo test --workspace")
    checked ← run_orb_script processes root none (codes "cargo deny check")
    run_socketcan_smoke_test

  unfoldable pub ci_all_local : Task S Path' E (Unit {0})
  unfolding ci_hosted ci_linux_local run_socketcan_smoke_test
  ci_all_local = do hosted ← ci_hosted; ci_linux_local

  -- On Unix.
  unfoldable pub install_hooks : Task S Path' E (Unit {0})
  install_hooks = do
    found ←
        context (codes "missing hook " ++ root ++ codes "/.githooks/pre-push")
          (metadata (root ++ codes "/.githooks/pre-push"))
    executable ←
        context (codes "failed to update mode for " ++ root ++ codes "/.githooks/pre-push")
          (set_executable (root ++ codes "/.githooks/pre-push"))
    configured ←
        run_command_in processes root (codes "git")
          (codes "config" ∷ codes "core.hooksPath" ∷ codes ".githooks" ∷ [])
    shown ←
        command_output_in processes root (codes "git")
          (codes "config" ∷ codes "--get" ∷ codes "core.hooksPath" ∷ [])
    read ← bail_unless shown.success (codes "failed to read core.hooksPath after installation")
    λ s.
        return tt
          (println (codes "Configured core.hooksPath=" ++ trim (from_utf8_lossy shown.stdout)) s)

  -- `main`, for the first argument; the tasks on files are those of the modules Codegen and Files.
  module _ (codegen check_placeholders : Task S Path' E (Unit {0})) where
    unfoldable pub run_task : Option Text → Task S Path' E (Unit {0})
    run_task none = λ s. return tt (
        eprintln
          (codes
            "usage: cargo run -p xtask -- <codegen|check-placeholders|ci-hosted|ci-linux-local|ci-all-local|ci|install-hooks>")
          s)
    run_task (some name) =
        if same_bytes name (codes "codegen")
        then codegen
        else if same_bytes name (codes "check-placeholders")
        then check_placeholders
        else if same_bytes name (codes "ci-hosted")
        then ci_hosted
        else if same_bytes name (codes "ci-linux-local")
        then ci_linux_local
        else if same_bytes name (codes "ci-all-local")
        then ci_all_local
        else if same_bytes name (codes "ci")
        then ci_all_local
        else if same_bytes name (codes "install-hooks")
        then install_hooks
        else throw (bailed (codes "unknown xtask command " ++ name))
