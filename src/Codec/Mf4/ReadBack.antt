-- ===== src/Codec/Mf4/ReadBack.antt =====
-- Whole MF4 files: the events that `read_mf4` finds.
use cantools_rs.Prelude.{
  ℕ, false, Option, some, List, [], ◌∷◌, ◌++◌, ok, Bytes, length, ◌≡◌, refl, ◌<◌, arith,
  le→ltb_false, lt→ltb,
}
use cantools_rs.Core.{Text, CoreError, CaptureEvent}
use cantools_rs.Codec.Mf4.{name_of, encode_record}
use cantools_rs.Codec.Mf4.RoundTrip.{as_recorded, IsRecordable, decode_record-of_encoded}
use cantools_rs.Codec.Mf4.Read.{
  Mdf, channel_group_name, is_capture, read_records, read_blocks, read_group, read_groups, read_mf4,
}

module _ {S Path' : Type 0} (mdf : Mdf S Path') (from_utf8_lossy : Bytes → Text) where
  -- The events that some records hold: a short record holds none, and each other one is the record of a
  -- recordable event whose name is valid UTF-8.
  pub data Records : List Bytes → List CaptureEvent → Type 0 where
    end : Records [] []
    short :
        {bytes : Bytes} {rest : List Bytes} {events : List CaptureEvent}
        → length bytes < 116
        → Records rest events
        → Records (bytes ∷ rest) events
    event :
        {bytes : Bytes} {rest : List Bytes} {events : List CaptureEvent} (recorded : CaptureEvent)
        → encode_record {E = CoreError} recorded ≡ ok bytes
        → IsRecordable recorded
        → from_utf8_lossy (name_of recorded) ≡ name_of recorded
        → Records rest events
        → Records (bytes ∷ rest) (as_recorded recorded ∷ events)

  -- The events in the blocks of a group, and in the groups of a file, those with another name passed over.
  pub data Blocks (record_size : ℕ) : List mdf.DataBlock → List CaptureEvent → Type 0 where
    end : Blocks record_size [] []
    block :
        {b : mdf.DataBlock} {rest : List mdf.DataBlock} {events later : List CaptureEvent}
        → Records (mdf.records b record_size) events
        → Blocks record_size rest later
        → Blocks record_size (b ∷ rest) (events ++ later)

  pub data Groups : List mdf.ChannelGroup → List CaptureEvent → Type 0 where
    end : Groups [] []
    skipped :
        {g : mdf.ChannelGroup} {rest : List mdf.ChannelGroup} {events : List CaptureEvent}
        (name : Option Text)
        → mdf.name g ≡ ok name
        → is_capture name ≡ false
        → Groups rest events
        → Groups (g ∷ rest) events
    capture :
        {g : mdf.ChannelGroup} {rest : List mdf.ChannelGroup} {events later : List CaptureEvent}
        (blocks : List mdf.DataBlock)
        → mdf.name g ≡ ok (some channel_group_name)
        → mdf.data_blocks g ≡ ok blocks
        → Blocks (mdf.samples_byte_nr g) blocks events
        → Groups rest later
        → Groups (g ∷ rest) (events ++ later)

  read_records-Records :
      {IoError : Type 0} {records : List Bytes} {events : List CaptureEvent}
      → Records records events
      → read_records {IoError = IoError} mdf from_utf8_lossy records ≡ ok events
  unfolding read_records
  read_records-Records {IoError} end = refl
  read_records-Records {IoError} (short {bytes} {rest} {events} h more) =
      rw (lt→ltb (length bytes) 116 h, read_records-Records {IoError = IoError} more) refl
  read_records-Records {IoError}
        (event {bytes} {rest} {events} recorded encoded recordable utf8 more) =
      let back = decode_record-of_encoded from_utf8_lossy recorded bytes recordable utf8 encoded in
      rw
        (
          le→ltb_false (length bytes) 116 (omega (arith, back.0)),
          back.1,
          read_records-Records {IoError = IoError} more,
        )
        refl

  read_blocks-Blocks :
      {IoError : Type 0} {record_size : ℕ} {blocks : List mdf.DataBlock}
      {events : List CaptureEvent}
      → Blocks record_size blocks events
      → read_blocks {IoError = IoError} mdf from_utf8_lossy record_size blocks ≡ ok events
  unfolding read_blocks
  read_blocks-Blocks {IoError} end = refl
  read_blocks-Blocks {IoError} (block here more) =
      rw
        (read_records-Records {IoError = IoError} here, read_blocks-Blocks {IoError = IoError} more)
        refl

  read_groups-Groups :
      {IoError : Type 0} {groups : List mdf.ChannelGroup} {events : List CaptureEvent}
      → Groups groups events
      → read_groups {IoError = IoError} mdf from_utf8_lossy groups ≡ ok events
  unfolding read_groups read_group
  read_groups-Groups {IoError} end = refl
  read_groups-Groups {IoError} (skipped name named other more) =
      rw (named, other, read_groups-Groups {IoError = IoError} more) refl
  read_groups-Groups {IoError} (capture blocks named holds here more) =
      rw
        (
          named,
          holds,
          read_blocks-Blocks {IoError = IoError} here,
          read_groups-Groups {IoError = IoError} more,
        )
        refl

  -- In a file that opens, with groups whose names can be read, `read_mf4` returns with no note the
  -- events, as `as_recorded` leaves them, of all records of 116 bytes in the groups named
  -- "cantools.capture", in the order of the groups, the blocks and the records, where these are the
  -- records of recordable events. Groups with another name or none and shorter records add nothing.
  pub read_mf4-Groups :
      {IoError : Type 0} (path : Path') (s s' : S) (file : mdf.MdfFile) (events : List CaptureEvent)
      → mdf.from_file path s ≡ (ok file, s')
      → Groups (mdf.channel_groups file) events
      → read_mf4 {IoError = IoError} mdf from_utf8_lossy path s
        ≡ (ok (record { events = events; notes = [] }), s')
  unfolding read_mf4
  read_mf4-Groups {IoError} path s s' file events opens holds =
      rw (opens, read_groups-Groups {IoError = IoError} holds) refl
