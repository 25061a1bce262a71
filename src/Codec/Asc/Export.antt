-- ===== src/Codec/Asc/Export.antt =====
-- crates/cantools-codec/src/asc.rs: `write_asc`. The file and its `BufWriter` are the parameter `writer`.
use cantools_rs.Prelude.{ℕ, ◌+◌, List, [], ◌∷◌, ◌++◌}
use cantools_rs.Prelude.Effect.{Step, ◌>>=◌, return}
use cantools_rs.Prelude.Text.{codes}
use cantools_rs.Core.{Text, CaptureEvent}
use cantools_rs.Codec.{CodecError, io, FidelityNote, WriteReport}
use cantools_rs.Codec.Blf.File.{err_as}
use cantools_rs.Codec.Mf4.Write.{FileWriter}
use cantools_rs.Codec.Asc.{Seconds}
use cantools_rs.Codec.Asc.Write.{event_line, event_notes}

-- The notes of all events.
abbrev pub all_notes : ℕ → List CaptureEvent → List FidelityNote
all_notes index [] = []
all_notes index (e ∷ rest) = event_notes index e ++ all_notes (index + 1) rest

module _ {F S IoError Path' : Type 0} (seconds : Seconds F)
    (writer : FileWriter S IoError Path') where
  -- `writeln!`
  abbrev pub write_line : writer.Handle → Text → Step S (CodecError IoError) (Unit {0})
  write_line file line = err_as io (writer.write_all file (line ++ (10 ∷ [])))

  unfoldable pub write_events :
      writer.Handle → List CaptureEvent → Step S (CodecError IoError) (Unit {0})
  write_events file [] = return tt
  write_events file (event ∷ rest) = do
    done ← write_line file (event_line seconds event)
    write_events file rest

  unfoldable pub write_asc : Path' → List CaptureEvent → Step S (CodecError IoError) WriteReport
  unfolding write_events
  write_asc path events = do
    file ← err_as io (writer.create path)
    date ← write_line file (codes "date generated by cantools-rs")
    base ← write_line file (codes "base hex  timestamps absolute")
    begin ← write_line file (codes "Begin Triggerblock")
    lines ← write_events file events
    finish ← write_line file (codes "End TriggerBlock")
    flushed ← err_as io (writer.flush file)
    return (record { notes = all_notes 0 events })
