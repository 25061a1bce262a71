-- ===== src/Codec/Mf4/Write.antt =====
-- crates/cantools-codec/src/mf4.rs: `write_mf4`, which plans the file and then writes the blocks one
-- after the other.
use cantools_rs.Prelude.{◌+◌, List, [], ◌∷◌, Result, map_err, Bytes, length}
use cantools_rs.Prelude.Effect.{Step, ◌>>=◌, return, lift}
use cantools_rs.Prelude.Text.{codes}
use cantools_rs.Core.{Text, CaptureEvent}
use cantools_rs.Codec.{CodecError, WriteReport, io, parse, arg}
use cantools_rs.Codec.Blf.File.{err_as}
use cantools_rs.Codec.Mf4.Blocks.{BlockBytes}
use cantools_rs.Codec.Mf4.Plan.{plan, write_records}

-- `File::create`, `write_all` and `flush`.
pub record FileWriter (S IoError Path' : Type 0) : Type 1 where
  pub Handle : Type 0
  pub create : Path' → Step S IoError Handle
  pub write_all : Handle → Bytes → Step S IoError (Unit {0})
  pub flush : Handle → Step S IoError (Unit {0})

module _ {S IoError Path' MdfError : Type 0} (writer : FileWriter S IoError Path')
    (blocks : BlockBytes MdfError) (error_text : MdfError → Text) where
  abbrev made : {A : Type 0} → Result MdfError A → Step S (CodecError IoError) A
  made r = lift (map_err (λ e. parse (arg (error_text e) ∷ [])) r)

  abbrev put : writer.Handle → Bytes → Step S (CodecError IoError) (Unit {0})
  put file bytes = err_as io (writer.write_all file bytes)

  unfoldable pub put_channels :
      writer.Handle → List (Bytes × Bytes) → Step S (CodecError IoError) (Unit {0})
  put_channels file [] = return tt
  put_channels file ((channel, name) ∷ rest) = do
    a ← put file channel
    b ← put file name
    put_channels file rest

  unfoldable pub write_mf4 : Path' → List CaptureEvent → Step S (CodecError IoError) WriteReport
  write_mf4 path events = do
    p ← made (plan blocks events)
    payload ← lift (write_records 0 events)
    file ← err_as io (writer.create path)
    put_id ← put file p.id_bytes
    header ← made (blocks.header p.header)
    put_header ← put file header
    channel_group ← made (blocks.channel_group p.channel_group)
    put_group ← put file channel_group
    data_group ← made (blocks.data_group p.data_group)
    put_data_group ← put file data_group
    put_comment ← put file p.comment_bytes
    put_name ← put file p.group_name_bytes
    put_all ← put_channels file p.channel_bytes
    data_header ← made (
        blocks.block_header (record {
          id = codes "##DT";
          reserved0 = 0;
          block_len = 24 + length payload.0;
          links_nr = 0;
        }))
    put_data_header ← put file data_header
    put_payload ← put file payload.0
    flushed ← err_as io (writer.flush file)
    return (record { notes = payload.1 })
