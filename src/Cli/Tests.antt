-- ===== src/Cli/Tests.antt =====
-- Concrete runs of the command line.
use cantools_rs.Prelude.{
  ℕ, suc, ◌+◌, ◌≡◌, refl, true, false, none, some, List, [], ◌∷◌, ◌++◌, Result, ok, panic, arith,
}
use cantools_rs.Prelude.Int.{pos}
use cantools_rs.Prelude.Text.{codes}
use cantools_rs.Prelude.Hex.{format_hex}
use cantools_rs.Core.{CanFrame, CaptureEvent, data_frame, preserve, tx}
use cantools_rs.Cli.{
  CliError, parse_hex_bytes, build_frame, render_frame, render_id, render_bytes, decimal_2,
  fd_suffix,
}
use cantools_rs.Cli.Frames.{build_frame-render_frame}
use cantools_rs.Cli.Panics.{Answers, parse_hex_bytes-Answers, parse_hex_bytes-panics}
use cantools_rs.Cli.World.{World}
use cantools_rs.Cli.Replay.{replay}
use cantools_rs.Cli.Schedule.{Keeps, at_times, replay-at_times}
use cantools_rs.Cli.Expect.{Ended, Ends, expect_loop}
use cantools_rs.Cli.Deadline.{Ticks, expect_loop-Ends}
use cantools_rs.Cli.Sequence.{SequenceStep, run_steps}
use cantools_rs.Cli.SequenceEnds.{run_steps-ends}

abbrev frame : CanFrame
frame = record {
  id = record { raw = 0x18daf110; extended = true };
  class = data_frame;
  payload = 2 ∷ 0x10 ∷ 3 ∷ [];
  fd = false;
  fd_flags = record { bit_rate_switch = false; error_state_indicator = false };
}

shown : render_frame frame ≡ codes "18DAF110 [ 3] 02 10 03"
unfolding render_frame format_hex
shown = refl

build_frame-render_frame_example :
    (render_frame frame
      ≡ render_id frame.id
        ++ (codes " ["
            ++ (decimal_2 3 ++ (codes "] " ++ (render_bytes frame.payload ++ fd_suffix false)))))
    × (build_frame {F = ℕ} (render_id frame.id) (render_bytes frame.payload) false false false
        ≡ ok (record frame { id = record { raw = 0x18daf110; extended = true } }))
build_frame-render_frame_example =
    build_frame-render_frame {F = ℕ} frame
      (record { id_fits = omega arith; payload_fits = omega arith }) (omega arith) refl

parse_hex_bytes-Answers_example : Answers (parse_hex_bytes {F = ℕ} (codes "01 0g"))
parse_hex_bytes-Answers_example = parse_hex_bytes-Answers ℕ (codes "01 0g") (omega arith)

-- `aé1`
parse_hex_bytes-panics_example : parse_hex_bytes {F = ℕ} (97 ∷ 0xc3 ∷ 0xa9 ∷ 49 ∷ []) ≡ panic
parse_hex_bytes-panics_example =
    parse_hex_bytes-panics ℕ 97 0xc3 0xa9 49 refl refl (omega arith) (omega arith) (omega arith)

-- The time, and the frames that were sent.
abbrev State : Type 0
State = ℕ × List (ℕ × CanFrame)

-- Each call of `recv` takes a nanosecond and finds no frame.
abbrev quiet : World State ℕ
quiet = record {
  Socket = Unit {0};
  open_socket = λ interface s. (ok tt, s);
  send = λ socket f s. (ok tt, (s.0, s.1 ++ (s.0, f) ∷ []));
  recv = λ socket s. (ok none, (suc s.0, s.1));
  nonblocking = λ socket on s. (ok tt, s);
  sleep = λ n s. (s.0 + n, s.1);
  now = λ s. s.0;
  println = λ text s. s;
  eprintln = λ text s. s;
}

quiet-Keeps : Keeps quiet tt (λ s. s.1)
quiet-Keeps = record {
  accepts = λ f s. refl;
  instant = λ f s. refl;
  logs = λ f s. refl;
  sleeps = λ n s. refl;
  silent = λ n s. refl;
}

quiet-Ticks : Ticks quiet tt
quiet-Ticks = record { recv_takes = λ s. omega arith; sleep_takes = λ n s. omega arith }

abbrev event_at : ℕ → CaptureEvent
event_at seconds = record {
  timestamp = record { seconds = pos seconds; nanos = 5 };
  interface = record { name = none; index = none };
  direction = tx;
  frame = frame;
  annotations = [];
}

replay-at_times_example :
    (s' : State) × (replay {F = ℕ} quiet
        (λ f n. n)
        tt
        preserve
        none
        (event_at 7 ∷ event_at 9 ∷ [])
        (100, [])
      ≡ (ok tt, s'))
    × (s'.1 ≡ at_times 100 (event_at 7).timestamp (event_at 7 ∷ event_at 9 ∷ []))
replay-at_times_example =
    replay-at_times {F = ℕ} quiet (λ f n. n) tt (λ s. s.1) (event_at 7) (event_at 9 ∷ []) (100, [])
      quiet-Keeps (refl, omega arith, omega arith, (refl, omega arith, omega arith, tt))

expect_loop-Ends_example :
    (r : Ended quiet tt [] frame.id 20_000_000) × (expect_loop quiet tt [] frame.id 20_000_000
        (suc 20_000_001)
        (0, [])
      ≡ some r)
    × Ends quiet tt [] frame.id 20_000_000 (0, []) r
expect_loop-Ends_example =
    expect_loop-Ends quiet tt [] frame.id 20_000_000 quiet-Ticks 20_000_001 (0, []) (omega arith)

abbrev steps : List SequenceStep
steps =
    SequenceStep.send (codes "7DF") (codes "02 01 0C") none none none
    ∷ SequenceStep.sleep 50
    ∷ SequenceStep.expect (codes "7E8") 3
    ∷ []

run_steps-ends_example :
    (r : Result (CliError ℕ) (Unit {0}) × State) × (run_steps quiet tt (suc 3_000_001) steps (0, [])
      ≡ some r)
run_steps-ends_example =
    run_steps-ends quiet tt quiet-Ticks 3_000_001 steps (0, []) (tt, (tt, (omega arith, tt)))
