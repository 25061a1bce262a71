-- ===== src/Cli/Expect.antt =====
-- crates/cantools-cli/src/main.rs: the loop of a step `expect` of a sequence. It has no bound of its
-- own, so it runs on fuel, and `none` is a loop that has not ended.
use cantools_rs.Prelude.{
  ℕ, zero, suc, ◌≤◌, ◌<◌, Bool, true, false, ◌&&◌, Option, none, some, Result, ok, err, panic, ltb,
  ◌==◌, if◌then◌else◌, ◌≡◌, ◌≢◌,
}
use cantools_rs.Core.{Text, CanId, CanFrame}
use cantools_rs.Cli.{CliError, timed_out, failed}
use cantools_rs.Cli.World.{World}

-- `==` of `CanId`
abbrev pub same_bool : Bool → Bool → Bool
same_bool true b = b
same_bool false true = false
same_bool false false = true

abbrev pub same_id : CanId → CanId → Bool
same_id a b = a.raw == b.raw && same_bool a.extended b.extended

module _ {S E : Type 0} (world : World S E) (socket : world.Socket) (id : Text) (expected : CanId)
    (deadline : ℕ) where
  abbrev pub Ended : Type 0
  Ended = Result (CliError E) (Unit {0}) × S

  -- What a round does with the answer of `recv`, before the later rounds.
  abbrev pub on_reply : (S → Option Ended) → Result E (Option CanFrame) × S → Option Ended
  on_reply again (ok (some frame), s) =
      if same_id frame.id expected then some (ok tt, s) else again s
  on_reply again (ok none, s) = again (world.sleep 10_000_000 s)
  on_reply again (err e, s) = some (err (failed e), s)
  on_reply again (panic, s) = some (panic, s)

  unfoldable pub expect_loop : (fuel : ℕ) → S → Option Ended
  expect_loop zero s = none
  expect_loop (suc fuel) s =
      let round = on_reply (expect_loop fuel) (world.recv socket s) in
      if ltb deadline (world.now s) then some (err (timed_out id), s) else round

  -- How the loop may end, step by step.
  pub data Ends : S → Ended → Type 0 where
    late : {s : S} → deadline < world.now s → Ends s (err (timed_out id), s)
    found :
        {s s' : S} (frame : CanFrame)
        → world.now s ≤ deadline
        → world.recv socket s ≡ (ok (some frame), s')
        → frame.id ≡ expected
        → Ends s (ok tt, s')
    passed :
        {s s' : S} {r : Ended} (frame : CanFrame)
        → world.now s ≤ deadline
        → world.recv socket s ≡ (ok (some frame), s')
        → frame.id ≢ expected
        → Ends s' r
        → Ends s r
    idle :
        {s s' : S} {r : Ended}
        → world.now s ≤ deadline
        → world.recv socket s ≡ (ok none, s')
        → Ends (world.sleep 10_000_000 s') r
        → Ends s r
    broken :
        {s s' : S} (e : E)
        → world.now s ≤ deadline
        → world.recv socket s ≡ (err e, s')
        → Ends s (err (failed e), s')
    panicked :
        {s s' : S} → world.now s ≤ deadline → world.recv socket s ≡ (panic, s') → Ends s (panic, s')
