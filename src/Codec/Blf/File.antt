-- ===== src/Codec/Blf/File.antt =====
-- crates/cantools-codec/src/blf.rs: `read_blf` and `write_blf`. `ablf` opens a file and lists its
-- objects, `binrw` writes the headers and messages, and the file system creates and writes files; all
-- are parameters.
use cantools_rs.Prelude.{
  ℕ, ◌+◌, ◌%◌, ◌^◌, Bool, List, [], ◌∷◌, Result, map_err, Bytes, length, replicate, if◌then◌else◌,
}
use cantools_rs.Prelude.Effect.{Step, ◌>>=◌, return, throw, lift}
use cantools_rs.Core.{Text, CaptureEvent}
use cantools_rs.Codec.{ReadReport, WriteReport, CodecError, io, parse, lit, arg}
use cantools_rs.Codec.Blf.{CanMessage2Write, Object}
use cantools_rs.Codec.Blf.Objects.{ObjectBaseHeaderWrite, read_objects, write_objects}

pub record FileHeaderWrite : Type 0 where
  pub signature : Bytes
  pub stats_size : ℕ
  pub api_version : ℕ
  pub application_id : ℕ
  pub application_major : ℕ
  pub application_minor : ℕ
  pub application_build : ℕ
  pub file_size : ℕ
  pub uncompressed_size : ℕ
  pub object_count : ℕ
  pub objects_read : ℕ
  pub measurement_start_time : List ℕ
  pub last_object_time : List ℕ
  pub reserved : List ℕ

-- `from_reader` opens and parses a file; `is_valid` and the iterator are those of `BlfFile`.
pub record Ablf (S IoError Path' : Type 0) : Type 1 where
  pub BlfFile : Type 0
  pub from_reader : Path' → Step S IoError BlfFile
  pub is_valid : BlfFile → Bool
  pub objects : BlfFile → List Object
  pub display : Path' → Text

abbrev pub err_as : {S E F A : Type 0} → (E → F) → Step S E A → Step S F A
err_as f m s = (map_err f (m s).0, (m s).1)

unfoldable pub read_blf :
    {S IoError Path' : Type 0}
    → Ablf S IoError Path'
    → Path'
    → Step S (CodecError IoError) ReadReport
read_blf ablf path = do
  blf ← err_as io (ablf.from_reader path)
  checked ←
      (if ablf.is_valid blf
        then return tt
        else throw (parse (lit "invalid BLF file " ∷ arg (ablf.display path) ∷ [])))
  report ← lift (read_objects 0 (ablf.objects blf))
  return (record { events = report.0; notes = report.1 })

-- `write_message` and `write_base_header` write to a buffer; the others to a file.
pub record BlfWriter (S IoError Path' : Type 0) : Type 1 where
  pub write_message : CanMessage2Write → Result Text Bytes
  pub write_base_header : ObjectBaseHeaderWrite → Result Text Bytes
  pub Handle : Type 0
  pub create : Path' → Step S IoError Handle
  pub write_file_header : Handle → FileHeaderWrite → Step S Text (Unit {0})
  pub write_all : Handle → Bytes → Step S IoError (Unit {0})
  pub flush : Handle → Step S IoError (Unit {0})

module _ {S IoError Path' : Type 0} (writer : BlfWriter S IoError Path') where
  unfoldable pub file_header : ℕ → ℕ → FileHeaderWrite
  file_header inner count = record {
    signature = b'L' ∷ b'O' ∷ b'G' ∷ b'G' ∷ [];
    stats_size = 144;
    api_version = 0;
    application_id = 0;
    application_major = 0;
    application_minor = 1;
    application_build = 0;
    file_size = 144 + inner;
    uncompressed_size = inner;
    object_count = count % 2 ^ 32;
    objects_read = 0;
    measurement_start_time = replicate 8 0;
    last_object_time = replicate 8 0;
    reserved = replicate 18 0;
  }

  unfoldable pub write_blf : Path' → List CaptureEvent → Step S (CodecError IoError) WriteReport
  unfolding file_header
  write_blf path events = do
    written ← lift (write_objects writer.write_message writer.write_base_header 0 events)
    file ← err_as io (writer.create path)
    a ←
        err_as (λ e. parse (lit "failed to encode BLF file header: " ∷ arg e ∷ []))
          (writer.write_file_header file (file_header (length written.0) (length events)))
    b ← err_as io (writer.write_all file written.0)
    c ← err_as io (writer.flush file)
    return (record { notes = written.1 })
