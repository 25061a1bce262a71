-- ===== src/Cli/Replay.antt =====
-- crates/cantools-cli/src/main.rs: `replay_mode` and `replay`. The duration of a scaled pause,
-- `(delta_ns as f64 / scale.max(0.000_1)) as u64`, is a parameter.
use cantools_rs.Prelude.{
  ℕ, ◌+◌, ◌-◌, ◌*◌, ◌%◌, ◌^◌, Bool, Option, none, some, List, [], ◌∷◌, if◌then◌else◌,
}
use cantools_rs.Prelude.Int.{pos_part, neg_part}
use cantools_rs.Prelude.Effect.{Step, ◌>>=◌, return}
use cantools_rs.Core.{Timestamp, CaptureEvent, ReplayMode, preserve, immediate, scale}
use cantools_rs.Codec.Blf.File.{err_as}
use cantools_rs.Cli.{CliError, failed}
use cantools_rs.Cli.World.{World}

abbrev pub replay_mode : {F : Type 0} → Bool → Option F → ReplayMode F
replay_mode now none = if now then immediate else preserve
replay_mode now (some factor) = if now then immediate else scale factor

-- `(current - previous).max(0) as u64`, of nanoseconds in `i128`.
unfoldable pub delta_ns : (previous current : Timestamp) → ℕ
delta_ns previous current =
    (pos_part current.seconds * 1_000_000_000
      + current.nanos
      + neg_part previous.seconds * 1_000_000_000
      - (pos_part previous.seconds * 1_000_000_000
          + previous.nanos
          + neg_part current.seconds * 1_000_000_000))
    % 2 ^ 64

module _ {S E F : Type 0} (world : World S E) (scaled : F → ℕ → ℕ) where
  -- The pause before an event; there is none before the first one.
  unfoldable pub pause :
      ReplayMode F → Option Timestamp → Timestamp → Step S (CliError E) (Unit {0})
  pause mode none current = return tt
  pause immediate (some previous) current = return tt
  pause preserve (some previous) current =
      λ s. return tt (world.sleep (delta_ns previous current) s)
  pause (scale factor) (some previous) current =
      λ s. return tt (world.sleep (scaled factor (delta_ns previous current)) s)

  unfoldable pub replay :
      world.Socket
      → ReplayMode F
      → (previous : Option Timestamp) → List CaptureEvent
      → Step S (CliError E) (Unit {0})
  unfolding pause
  replay socket mode previous [] = return tt
  replay socket mode previous (event ∷ rest) = do
    waited ← pause mode previous event.timestamp
    sent ← err_as failed (world.send socket event.frame)
    replay socket mode (some event.timestamp) rest
