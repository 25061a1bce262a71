-- ===== src/Codec/Asc/File.antt =====
-- crates/cantools-codec/src/asc.rs: `read_asc`. A file is opened with its lines, each of which may fail
-- to be read, by a parameter.
use cantools_rs.Prelude.{List, [], ◌∷◌, Result, ok, map_err, ◌>>=◌}
use cantools_rs.Prelude.Effect.{Step}
use cantools_rs.Core.{Text, CaptureEvent}
use cantools_rs.Codec.{CodecError, io, FidelityNote, ReadReport}
use cantools_rs.Codec.Asc.{Seconds, Line, skipped, noted, event, read_line}

abbrev pub add_line :
    Line → List CaptureEvent × List FidelityNote → List CaptureEvent × List FidelityNote
add_line skipped later = later
add_line (noted note) later = (later.0, note ∷ later.1)
add_line (event e) later = (e ∷ later.0, later.1)

module _ {F IoError : Type 0} (seconds : Seconds F) where
  -- The loop over the lines.
  unfoldable pub read_lines :
      List (Result IoError Text)
      → Result (CodecError IoError) (List CaptureEvent × List FidelityNote)
  read_lines [] = ok ([], [])
  read_lines (line ∷ rest) = do
    text ← map_err io line
    parsed ← read_line seconds text
    later ← read_lines rest
    ok (add_line parsed later)

  unfoldable pub read_asc :
      {S Path' : Type 0}
      → (open_lines : Path' → Step S IoError (List (Result IoError Text))) → Path'
      → Step S (CodecError IoError) ReadReport
  unfolding read_lines
  read_asc open_lines path s =
      let opened = open_lines path s in
      (
        (do
          lines ← map_err io opened.0
          found ← read_lines lines
          ok (record { events = found.0; notes = found.1 })),
        opened.1,
      )
