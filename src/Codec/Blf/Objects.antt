-- ===== src/Codec/Blf/Objects.antt =====
-- crates/cantools-codec/src/blf.rs: the loops of `read_blf` and `write_blf` over the objects of a
-- file, with the notes that they push.
use cantools_rs.Prelude.{
  ℕ, ◌+◌, ◌%◌, ◌^◌, none, some, List, [], ◌∷◌, ◌++◌, Result, ok, ◌>>=◌, map_err, Bytes, length,
}
use cantools_rs.Core.{Text, CaptureEvent, Annotation}
use cantools_rs.Codec.{FidelityNote, CodecError, parse, core, lit, arg}
use cantools_rs.Codec.Blf.{
  CanMessage2Write, Object, can_message, other, build_can_message, read_message,
}

pub record ObjectBaseHeaderWrite : Type 0 where
  pub signature : Bytes
  pub header_size : ℕ
  pub header_version : ℕ
  pub object_size : ℕ
  pub object_type : ℕ

abbrev pub import_note : ℕ → FidelityNote
import_note index = record {
  event_index = some index;
  field = "payload";
  detail =
      lit
        "BLF import is best-effort in the bootstrap implementation and may not preserve every payload/layout detail"
      ∷ [];
}

abbrev pub ignored_note : Text → FidelityNote
ignored_note debug = record {
  event_index = none;
  field = "object_type";
  detail = lit "ignored BLF object " ∷ arg debug ∷ [];
}

abbrev pub export_notes : ℕ → List Annotation → List FidelityNote
export_notes index annotations =
    elim annotations [
      | [] ↦ []
      | ◌∷◌ a rest ↦
          record {
            event_index = some index;
            field = "annotations";
            detail = lit "BLF export omits structured annotations" ∷ [];
          }
          ∷ []
    ]
    ++ record {
      event_index = some index;
      field = "payload";
      detail =
          lit
            "BLF export is best-effort in the bootstrap implementation and may not preserve every payload/layout detail"
          ∷ [];
    }
      ∷ []

-- The loop over the objects, with the number of events so far.
unfoldable pub read_objects :
    {IoError : Type 0}
    → ℕ
    → List Object
    → Result (CodecError IoError) (List CaptureEvent × List FidelityNote)
read_objects index [] = ok ([], [])
read_objects index (can_message message ∷ rest) = do
  event ← map_err core (read_message message)
  later ← read_objects (index + 1) rest
  ok (event ∷ later.0, import_note index ∷ later.1)
read_objects index (other debug ∷ rest) = do
  later ← read_objects index rest
  ok (later.0, ignored_note debug ∷ later.1)

-- `binrw` writes a struct to a buffer, or fails with a text.
module _ (write_message : CanMessage2Write → Result Text Bytes)
    (write_base_header : ObjectBaseHeaderWrite → Result Text Bytes) where
  -- The bytes of the objects, and the notes.
  unfoldable pub write_objects :
      {IoError : Type 0}
      → ℕ
      → List CaptureEvent
      → Result (CodecError IoError) (Bytes × List FidelityNote)
  write_objects index [] = ok ([], [])
  write_objects index (event ∷ rest) = do
    message ← build_can_message event
    payload ←
        map_err (λ e. parse (lit "failed to encode BLF CAN message: " ∷ arg e ∷ []))
          (write_message message)
    header ←
        map_err (λ e. parse (lit "failed to encode BLF object header: " ∷ arg e ∷ []))
          (write_base_header (record {
            signature = b'L' ∷ b'O' ∷ b'B' ∷ b'J' ∷ [];
            header_size = 16;
            header_version = 1;
            object_size = (16 + length payload) % 2 ^ 32;
            object_type = 86;
          }))
    later ← write_objects (index + 1) rest
    ok (header ++ payload ++ later.0, export_notes index event.annotations ++ later.1)
