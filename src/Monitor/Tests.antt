-- ===== src/Monitor/Tests.antt =====
-- Concrete runs of the monitor's loop.
use cantools_rs.Prelude.{ℕ, ◌≡◌, refl, true, false, none, List, [], ◌∷◌, ok, arith}
use cantools_rs.Prelude.Int.{pos}
use cantools_rs.Core.{CaptureEvent, CoreError, data_frame, rx}
use cantools_rs.Monitor.{Round, key, release, char, running, receive, run_loop}
use cantools_rs.Monitor.Recent.{shown, run_loop-shown, receive_unbounded}

-- An event of one byte.
abbrev event : ℕ → CaptureEvent
event byte = record {
  timestamp = record { seconds = pos byte; nanos = 0 };
  interface = record { name = none; index = none };
  direction = rx;
  frame = record {
    id = record { raw = 0x123; extended = false };
    class = data_frame;
    payload = byte ∷ [];
    fd = false;
    fd_flags = record { bit_rate_switch = false; error_state_indicator = false };
  };
  annotations = [];
}

abbrev round : List CaptureEvent → Round CoreError
round received = record {
  received = received;
  ended = ok tt;
  drawn = ok tt;
  poll = ok true;
  read = ok (key release (char b'q'));
}

run_loop-shown_example :
    run_loop 2 [] (round (event 1 ∷ event 2 ∷ []) ∷ round (event 3 ∷ []) ∷ [])
    ≡ (shown 2 [] (round (event 1 ∷ event 2 ∷ []) ∷ round (event 3 ∷ []) ∷ []), running)
run_loop-shown_example =
    run_loop-shown 2 (round (event 1 ∷ event 2 ∷ []) ∷ round (event 3 ∷ []) ∷ []) (omega arith)
      ((refl, refl, refl), ((refl, refl, refl), tt))

receive_unbounded_example :
    receive 0 (event 1 ∷ []) (event 2 ∷ event 3 ∷ []) ≡ event 1 ∷ event 2 ∷ event 3 ∷ []
receive_unbounded_example = receive_unbounded (event 1) [] (event 2 ∷ event 3 ∷ [])
