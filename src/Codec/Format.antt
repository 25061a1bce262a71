-- ===== src/Codec/Format.antt =====
-- crates/cantools-codec/src/lib.rs: the format of a path, and the dispatch to the codecs. The extension of a
-- path, where it has one in UTF-8, and its display are parameters, as are those of the codecs.
use cantools_rs.Prelude.{Option, none, some, List, Result, ok, err, map, Bytes, if◌then◌else◌}
use cantools_rs.Prelude.Effect.{Step, ◌>>=◌, lift}
use cantools_rs.Prelude.Text.{codes, same_bytes}
use cantools_rs.Core.{Text, CaptureEvent}
use cantools_rs.Codec.{CodecError, unknown_format, ReadReport, WriteReport}
use cantools_rs.Codec.Blf.File.{Ablf, BlfWriter, read_blf, write_blf}
use cantools_rs.Codec.Mf4.Read.{Mdf, read_mf4}
use cantools_rs.Codec.Mf4.Blocks.{BlockBytes}
use cantools_rs.Codec.Mf4.Write.{FileWriter, write_mf4}
use cantools_rs.Codec.Asc.{Seconds, lower}
use cantools_rs.Codec.Asc.File.{read_asc}
use cantools_rs.Codec.Asc.Export.{write_asc}

pub data Format : Type 0 where
  mf4 asc blf : Format

-- The format of a lower-cased extension.
abbrev pub of_extension : Option Text → Option Format
of_extension none = none
of_extension (some ext) =
    if same_bytes ext (codes "mf4")
    then some mf4
    else if same_bytes ext (codes "asc")
    then some asc
    else if same_bytes ext (codes "blf")
    then some blf
    else none

abbrev pub lower_all : Option Text → Option Text
lower_all none = none
lower_all (some ext) = some (map lower ext)

unfoldable pub from_path :
    {IoError Path' : Type 0}
    → (extension : Path' → Option Text) → (display : Path' → Text) → Path'
    → Result (CodecError IoError) Format
from_path extension display path = elim (of_extension (lower_all (extension path))) [
  | none ↦ err (unknown_format (display path))
  | some format ↦ ok format
]

-- What belongs to a format, of three things.
abbrev pub for_format : {A : Type 0} → (for_asc for_blf for_mf4 : A) → Format → A
for_format for_asc for_blf for_mf4 asc = for_asc
for_format for_asc for_blf for_mf4 blf = for_blf
for_format for_asc for_blf for_mf4 mf4 = for_mf4

module _ {S IoError Path' : Type 0} (extension : Path' → Option Text) (display : Path' → Text) where
  unfoldable pub read_path :
      {F : Type 0}
      → Seconds F
      → (open_lines : Path' → Step S IoError (List (Result IoError Text))) → Ablf S IoError Path'
      → Mdf S Path'
      → (from_utf8_lossy : Bytes → Text) → Path'
      → Step S (CodecError IoError) ReadReport
  unfolding from_path
  read_path seconds open_lines ablf mdf from_utf8_lossy path = do
    format ← lift (from_path extension display path)
    for_format (read_asc seconds open_lines path) (read_blf ablf path)
        (read_mf4 mdf from_utf8_lossy path) format

  unfoldable pub write_path :
      {F MdfError : Type 0}
      → Seconds F
      → FileWriter S IoError Path'
      → BlfWriter S IoError Path'
      → BlockBytes MdfError
      → (error_text : MdfError → Text) → Path'
      → List CaptureEvent
      → Step S (CodecError IoError) WriteReport
  unfolding from_path
  write_path seconds writer blf_writer blocks error_text path events = do
    format ← lift (from_path extension display path)
    for_format (write_asc seconds writer path events) (write_blf blf_writer path events)
        (write_mf4 writer blocks error_text path events) format
