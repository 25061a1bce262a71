-- ===== src/Cli/SequenceEnds.antt =====
-- A sequence ends.
use cantools_rs.Prelude.{
  ℕ, suc, ◌+◌, ◌*◌, ◌<◌, Option, some, List, [], ◌∷◌, Result, ok, err, panic, All, ◌≡◌, refl, arith,
}
use cantools_rs.Core.{Text, CanId}
use cantools_rs.Cli.{CliError, parse_id}
use cantools_rs.Cli.World.{World}
use cantools_rs.Cli.Deadline.{Ticks, expect_loop-Ends}
use cantools_rs.Cli.Sequence.{
  SequenceStep, send, sleep, expect, expect_id, run_step, then_steps, run_steps,
}

-- The fuel is above the nanoseconds that the step waits for.
abbrev pub Enough : ℕ → SequenceStep → Type 0
Enough fuel (send id payload fd brs esi) = Unit {0}
Enough fuel (sleep millis) = Unit {0}
Enough fuel (expect id timeout_ms) = timeout_ms * 1_000_000 < fuel

module _ {S E : Type 0} (world : World S E) (socket : world.Socket) (ticks : Ticks world socket)
    (fuel : ℕ) where
  abbrev pub Ended : Type 0
  Ended = Result (CliError E) (Unit {0}) × S

  expect_id-ends :
      (id : Text) (timeout_ms : ℕ) (parsed : Result (CliError E) CanId) (s : S)
      → timeout_ms * 1_000_000 < fuel
      → (r : Ended) × (expect_id world socket (suc fuel) id timeout_ms parsed s ≡ some r)
  expect_id-ends id timeout_ms (ok expected) s enough =
      let (r, steps, ends) =
        expect_loop-Ends world socket id expected (world.now s + timeout_ms * 1_000_000) ticks fuel
          s (omega (arith, enough)) in
      (r, steps)
  expect_id-ends id timeout_ms (err e) s enough = ((err e, s), refl)
  expect_id-ends id timeout_ms panic s enough = ((panic, s), refl)

  run_step-ends :
      (step : SequenceStep) (s : S)
      → Enough fuel step
      → (r : Ended) × (run_step world socket (suc fuel) step s ≡ some r)
  unfolding run_step
  run_step-ends (send id payload fd brs esi) s enough = (_, refl)
  run_step-ends (sleep millis) s enough = (_, refl)
  run_step-ends (expect id timeout_ms) s enough =
      expect_id-ends id timeout_ms (parse_id id) s enough

  then_steps-ends :
      (later : S → Option Ended) (r : Ended)
      → ((s : S) → (r' : Ended) × (later s ≡ some r'))
      → (r' : Ended) × (then_steps world socket (suc fuel) later (some r) ≡ some r')
  then_steps-ends later (ok done, s) ends = ends s
  then_steps-ends later (err e, s) ends = ((err e, s), refl)
  then_steps-ends later (panic, s) ends = ((panic, s), refl)

  -- Where each call of `recv` takes some time and a pause its time at least, the steps of any sequence end
  -- from any state with a result, given at least two more rounds of fuel than the nanoseconds that any
  -- of its steps `expect` waits for.
  pub run_steps-ends :
      (steps : List SequenceStep) (s : S)
      → All (Enough fuel) steps
      → (r : Ended) × (run_steps world socket (suc fuel) steps s ≡ some r)
  unfolding run_steps
  run_steps-ends [] s enough = (_, refl)
  run_steps-ends (step ∷ rest) s (enough, more) =
      let (r, ended) = run_step-ends step s enough in
      rw ended (
        then_steps-ends (run_steps world socket (suc fuel) rest) r
          (λ s'. run_steps-ends rest s' more))
