-- ===== src/Cli/Sequence.antt =====
-- crates/cantools-cli/src/main.rs: the steps of a sequence. Fuel bounds the loop of a step `expect`, and
-- `none` is a sequence that has not ended.
use cantools_rs.Prelude.{
  ℕ, ◌+◌, ◌*◌, Bool, false, Option, none, some, List, [], ◌∷◌, Result, ok, err, panic,
}
use cantools_rs.Prelude.Effect.{◌>>=◌, lift}
use mathlib.Core.Option
use cantools_rs.Core.{Text, CanId}
use cantools_rs.Codec.Blf.File.{err_as}
use cantools_rs.Cli.{CliError, failed, parse_id, build_frame}
use cantools_rs.Cli.World.{World}
use cantools_rs.Cli.Expect.{expect_loop}

pub data SequenceStep : Type 0 where
  send : (id payload : Text) (fd brs esi : Option Bool) → SequenceStep
  sleep : (millis : ℕ) → SequenceStep
  expect : (id : Text) (timeout_ms : ℕ) → SequenceStep

module _ {S E : Type 0} (world : World S E) (socket : world.Socket) (fuel : ℕ) where
  -- The loop, once the identifier has been read.
  abbrev pub expect_id :
      Text → ℕ → Result (CliError E) CanId → S → Option (Result (CliError E) (Unit {0}) × S)
  expect_id id timeout_ms (ok expected) s =
      expect_loop world socket id expected (world.now s + timeout_ms * 1_000_000) fuel s
  expect_id id timeout_ms (err e) s = some (err e, s)
  expect_id id timeout_ms panic s = some (panic, s)

  unfoldable pub run_step : SequenceStep → S → Option (Result (CliError E) (Unit {0}) × S)
  run_step (send id payload fd brs esi) s = some (
      (do
        frame ← lift (
            build_frame id payload (Option.get_or fd false) (Option.get_or brs false)
              (Option.get_or esi false))
        err_as failed (world.send socket frame))
        s)
  run_step (sleep millis) s = some (ok tt, world.sleep (millis * 1_000_000) s)
  run_step (expect id timeout_ms) s = expect_id id timeout_ms (parse_id id) s

  -- What follows a step.
  abbrev pub then_steps :
      (S → Option (Result (CliError E) (Unit {0}) × S))
      → Option (Result (CliError E) (Unit {0}) × S)
      → Option (Result (CliError E) (Unit {0}) × S)
  then_steps later none = none
  then_steps later (some (ok done, s)) = later s
  then_steps later (some (err e, s)) = some (err e, s)
  then_steps later (some (panic, s)) = some (panic, s)

  unfoldable pub run_steps : List SequenceStep → S → Option (Result (CliError E) (Unit {0}) × S)
  run_steps [] s = some (ok tt, s)
  run_steps (step ∷ rest) s = then_steps (run_steps rest) (run_step step s)
