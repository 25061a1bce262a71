-- ===== src/Codec/Mf4/Read.antt =====
-- crates/cantools-codec/src/mf4.rs: `read_mf4`. `mf4_rs` parses a file and lists its channel groups, the
-- data blocks of a group and the records of a block; all are parameters. `None` is the name of a group
-- that has none.
use cantools_rs.Prelude.{
  ℕ, Bool, false, Option, none, some, List, [], ◌∷◌, ◌++◌, Result, ok, map_err, ◌>>=◌, Bytes,
  length, ltb, if◌then◌else◌,
}
use cantools_rs.Prelude.Effect.{Step}
use cantools_rs.Prelude.Text.{codes, same_bytes}
use cantools_rs.Core.{Text, CaptureEvent}
use cantools_rs.Codec.{CodecError, ReadReport, parse, core, arg}
use cantools_rs.Codec.Mf4.{decode_record}

-- `MDF::from_file`, `to_string` of an `MdfError`, and the accessors of a parsed file.
pub record Mdf (S Path' : Type 0) : Type 1 where
  pub MdfFile : Type 0
  pub ChannelGroup : Type 0
  pub DataBlock : Type 0
  pub MdfError : Type 0
  pub from_file : Path' → Step S MdfError MdfFile
  pub error_text : MdfError → Text
  pub channel_groups : MdfFile → List ChannelGroup
  pub name : ChannelGroup → Result MdfError (Option Text)
  pub samples_byte_nr : ChannelGroup → ℕ
  pub data_blocks : ChannelGroup → Result MdfError (List DataBlock)
  pub records : DataBlock → ℕ → List Bytes

abbrev pub channel_group_name : Text
channel_group_name = codes "cantools.capture"

abbrev pub is_capture : Option Text → Bool
is_capture none = false
is_capture (some text) = same_bytes text channel_group_name

abbrev pub mdf_error :
    {S IoError Path' : Type 0} (mdf : Mdf S Path') → mdf.MdfError → CodecError IoError
mdf_error mdf e = parse (arg (mdf.error_text e) ∷ [])

module _ {S IoError Path' : Type 0} (mdf : Mdf S Path') (from_utf8_lossy : Bytes → Text) where
  -- The records of 116 bytes and more; shorter ones are passed over.
  unfoldable pub read_records : List Bytes → Result (CodecError IoError) (List CaptureEvent)
  read_records [] = ok []
  read_records (bytes ∷ rest) =
      let later = read_records rest in
      if ltb (length bytes) 116 then later else (do
        event ← map_err core (decode_record from_utf8_lossy bytes)
        events ← later
        ok (event ∷ events))

  unfoldable pub read_blocks :
      ℕ → List mdf.DataBlock → Result (CodecError IoError) (List CaptureEvent)
  read_blocks record_size [] = ok []
  read_blocks record_size (block ∷ rest) = do
    events ← read_records (mdf.records block record_size)
    later ← read_blocks record_size rest
    ok (events ++ later)

  unfoldable pub read_group : mdf.ChannelGroup → Result (CodecError IoError) (List CaptureEvent)
  read_group group = do
    name ← map_err (mdf_error mdf) (mdf.name group)
    (if is_capture name
        then (do
          blocks ← map_err (mdf_error mdf) (mdf.data_blocks group)
          read_blocks (mdf.samples_byte_nr group) blocks)
        else ok [])

  unfoldable pub read_groups :
      List mdf.ChannelGroup → Result (CodecError IoError) (List CaptureEvent)
  read_groups [] = ok []
  read_groups (group ∷ rest) = do
    events ← read_group group
    later ← read_groups rest
    ok (events ++ later)

  -- The path is read as text, `to_string_lossy`, by the parameter `from_file`.
  unfoldable pub read_mf4 : Path' → Step S (CodecError IoError) ReadReport
  read_mf4 path s =
      let opened = mdf.from_file path s in
      (
        (do
          file ← map_err (mdf_error mdf) opened.0
          events ← read_groups (mdf.channel_groups file)
          ok (record { events = events; notes = [] })),
        opened.1,
      )
