-- ===== src/Monitor.antt =====
-- crates/cantools-tui/src/lib.rs: the loop of the monitor and the recent events that it keeps. The
-- terminal, the keyboard and the socket are parameters: a round is what they answer in one turn of the
-- loop. The drawing is left out; a screen is the events that it shows.
pub mod Recent
mod Tests
use cantools_rs.Prelude.{
  ℕ, Bool, true, false, List, [], ◌∷◌, ◌++◌, Result, ok, err, panic, ◌>>=◌, length, drop, ◌==◌,
  if◌then◌else◌,
}
use cantools_rs.Core.{CaptureEvent}

-- `if events.len() == limit { events.pop_front(); } events.push_back(event);`
unfoldable pub push_event : ℕ → List CaptureEvent → CaptureEvent → List CaptureEvent
push_event limit events event =
    if length events == limit then drop 1 events ++ event ∷ [] else events ++ event ∷ []

-- The inner loop, over the events that the socket has.
unfoldable pub receive : ℕ → List CaptureEvent → List CaptureEvent → List CaptureEvent
receive limit events [] = events
receive limit events (event ∷ rest) = receive limit (push_event limit events event) rest

-- `Event` of crossterm, as far as the loop looks at it: a key with its kind and code, or another event.
pub data KeyEventKind : Type 0 where
  press repeat release : KeyEventKind

pub data KeyCode : Type 0 where
  char : ℕ → KeyCode
  other_code : KeyCode

pub data Event : Type 0 where
  key : KeyEventKind → KeyCode → Event
  other_event : Event

-- `key.kind == KeyEventKind::Press && matches!(key.code, KeyCode::Char('q'))`
abbrev pub is_quit : Event → Bool
is_quit (key press (char c)) = c == b'q'
is_quit _ = false

-- The events of one turn, how `recv_event` ended (with `None`, or an error), whether the screen could
-- be drawn, whether `event::poll` saw an event in time, and what `event::read` answers.
pub record Round (E : Type 0) : Type 0 where
  pub received : List CaptureEvent
  pub ended : Result E (Unit {0})
  pub drawn : Result E (Unit {0})
  pub poll : Result E Bool
  pub read : Result E Event

-- `event::read` is called only where `event::poll` saw an event.
abbrev pub quits : {E : Type 0} → Result E Bool → Result E Event → Result E Bool
quits poll read = poll >>= λ seen. if seen then (read >>= λ event. ok (is_quit event)) else ok false

-- How the loop stands after some rounds.
pub data Outcome (E : Type 0) : Type 0 where
  running : Outcome E
  stopped : Outcome E
  failed : E → Outcome E
  panicked : Outcome E

abbrev pub Screens : Type 0 → Type 0
Screens E = List (List CaptureEvent) × Outcome E

abbrev pub after_quit : {E : Type 0} → Result E Bool → Screens E → Screens E
after_quit (ok true) later = ([], stopped)
after_quit (ok false) later = later
after_quit (err e) later = ([], failed e)
after_quit panic later = ([], panicked)

abbrev pub after_draw :
    {E : Type 0} → List CaptureEvent → Result E (Unit {0}) → Screens E → Screens E
after_draw events (ok u) later = (events ∷ later.0, later.1)
after_draw events (err e) later = ([], failed e)
after_draw events panic later = ([], panicked)

abbrev pub after_receive : {E : Type 0} → Result E (Unit {0}) → Screens E → Screens E
after_receive (ok u) later = later
after_receive (err e) later = ([], failed e)
after_receive panic later = ([], panicked)

-- `run_loop`, with the screens that it draws.
unfoldable pub run_loop : {E : Type 0} → ℕ → List CaptureEvent → List (Round E) → Screens E
run_loop limit events [] = ([], running)
run_loop limit events (round ∷ rest) =
    let now : List CaptureEvent = receive limit events round.received in
    after_receive round.ended (
      after_draw now round.drawn
        (after_quit (quits round.poll round.read) (run_loop limit now rest)))
