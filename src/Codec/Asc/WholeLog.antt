-- ===== src/Codec/Asc/WholeLog.antt =====
-- A whole log: the lines that `write_asc` writes, and the events that `read_asc` finds in them.
use cantools_rs.Prelude.{
  ℕ, ◌+◌, ◌*◌, ◌%◌, ◌≢◌, List, [], ◌∷◌, ◌++◌, All, map, ok, ◌≡◌, refl, arith, Result,
}
use cantools_rs.Prelude.Int.{negsuc, neg_part}
use cantools_rs.Prelude.Text.{codes}
use cantools_rs.Prelude.Effect.{Step}
use cantools_rs.Core.{Text, CaptureEvent}
use cantools_rs.Codec.Asc.{Seconds, read_line, timestamp_of}
use cantools_rs.Codec.Asc.Write.{event_line}
use cantools_rs.Codec.Asc.File.{read_lines, read_asc}
use cantools_rs.Codec.Asc.RoundTrip.{IsLoggable, as_logged, read_line-event_line}

-- The lines between which `write_asc` puts those of the events.
abbrev pub head_lines : List Text
head_lines =
    codes "date generated by cantools-rs"
    ∷ codes "base hex  timestamps absolute"
    ∷ codes "Begin Triggerblock"
    ∷ []

abbrev pub log_lines : {F : Type 0} → Seconds F → List CaptureEvent → List Text
log_lines seconds events =
    head_lines ++ (map (event_line seconds) events ++ (codes "End TriggerBlock" ∷ []))

event_lines :
    {F IoError : Type 0} (seconds : Seconds F) (events : List CaptureEvent)
    → All (IsLoggable seconds) events
    → read_lines {IoError = IoError} seconds
        (map ok (map (event_line seconds) events ++ (codes "End TriggerBlock" ∷ [])))
      ≡ ok (map as_logged events, [])
unfolding read_lines read_line
event_lines seconds [] h = refl
event_lines {F} {IoError} seconds (e ∷ rest) (loggable, h) =
    rw
      (
        read_line-event_line {IoError = IoError} seconds e loggable,
        event_lines {IoError = IoError} seconds rest h,
      )
      refl

-- Where a file opens with the lines that `write_asc` writes for some events (the three of its head, one
-- for each event, and the last one), each event a valid data or remote frame with a one-word name and a
-- time that its text gives back, `read_asc` returns all these events in order, as `as_logged` leaves
-- each, with no note: time, identifier and direction, and payload and format of a data frame.
pub read_asc-log_lines :
    {F S IoError Path' : Type 0} (seconds : Seconds F)
    (open_lines : Path' → Step S IoError (List (Result IoError Text))) (path : Path') (s s' : S)
    (events : List CaptureEvent)
    → open_lines path s ≡ (ok (map ok (log_lines seconds events)), s')
    → All (IsLoggable seconds) events
    → read_asc seconds open_lines path s
      ≡ (ok (record { events = map as_logged events; notes = [] }), s')
unfolding read_asc read_lines read_line
read_asc-log_lines {F} {S} {IoError} seconds open_lines path s s' events opens loggable =
    rw (opens, event_lines {IoError = IoError} seconds events loggable) refl

-- A time before the epoch that is not a whole second comes back one second too late: its seconds are
-- rounded towards zero, and its nanoseconds are counted up from the second below.
pub timestamp_of_negative :
    (n : ℕ)
    → (n + 1) % 1_000_000_000 ≢ 0
    → (timestamp_of (negsuc n)).nanos + (n + 1)
      ≡ neg_part (timestamp_of (negsuc n)).seconds * 1_000_000_000 + 1_000_000_000
unfolding timestamp_of
timestamp_of_negative n h = ground (arith, h)
