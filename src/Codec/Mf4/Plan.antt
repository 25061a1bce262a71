-- ===== src/Codec/Mf4/Plan.antt =====
-- crates/cantools-codec/src/mf4.rs: what `write_mf4` computes before it creates the file: the addresses,
-- the blocks with them, and the records.
use cantools_rs.Prelude.{ℕ, ◌+◌, List, [], ◌∷◌, ◌++◌, Result, ok, ◌>>=◌, Bytes, length}
use cantools_rs.Prelude.Text.{codes}
use cantools_rs.Core.{CaptureEvent}
use cantools_rs.Codec.{FidelityNote}
use cantools_rs.Codec.Blf.{timestamp_to_ns}
use cantools_rs.Codec.Mf4.{encode_record, record_notes}
use cantools_rs.Codec.Mf4.Read.{channel_group_name}
use cantools_rs.Codec.Mf4.Blocks.{
  HeaderBlock, ChannelGroupBlock, DataGroupBlock, BlockBytes, channel_defs, write_channels,
}

-- The records of the events, and the notes, from an index on.
unfoldable pub write_records :
    {E : Type 0} → ℕ → List CaptureEvent → Result E (Bytes × List FidelityNote)
write_records index [] = ok ([], [])
write_records index (event ∷ rest) = do
  record_bytes ← encode_record event
  later ← write_records (index + 1) rest
  ok (record_bytes ++ later.0, record_notes index event ++ later.1)

-- `abs_time`: the time of the first event.
abbrev pub first_time : {E : Type 0} → List CaptureEvent → Result E ℕ
first_time [] = ok 0
first_time (event ∷ rest) = timestamp_to_ns event.timestamp

pub record Plan : Type 0 where
  pub id_bytes : Bytes
  pub comment_bytes : Bytes
  pub group_name_bytes : Bytes
  pub channel_bytes : List (Bytes × Bytes)
  pub header : HeaderBlock
  pub channel_group : ChannelGroupBlock
  pub data_group : DataGroupBlock

unfoldable pub plan : {E : Type 0} → BlockBytes E → List CaptureEvent → Result E Plan
plan blocks events = do
  header_stub_bytes ← blocks.default_header
  id_bytes ← blocks.identification
  comment_bytes ← blocks.text (codes "cantools-rs capture-focused MF4 export")
  group_name_bytes ← blocks.text channel_group_name
  let channel_group_addr = length id_bytes + length header_stub_bytes
  let data_group_addr = channel_group_addr + 104
  let comment_addr = data_group_addr + 64
  let group_name_addr = comment_addr + length comment_bytes
  let first_channel_addr = group_name_addr + length group_name_bytes
  channels ← write_channels blocks first_channel_addr 0 channel_defs
  let data_addr = first_channel_addr + channels.1
  abs_time ← first_time events
  ok (record {
    id_bytes = id_bytes;
    comment_bytes = comment_bytes;
    group_name_bytes = group_name_bytes;
    channel_bytes = channels.0;
    header = record {
      first_dg_addr = data_group_addr;
      comment_addr = comment_addr;
      abs_time = abs_time;
      time_flags = 2;
    };
    channel_group = record {
      first_ch_addr = first_channel_addr;
      acq_name_addr = group_name_addr;
      comment_addr = comment_addr;
      cycles_nr = length events;
      samples_byte_nr = 116;
    };
    data_group = record { first_cg_addr = channel_group_addr; data_block_addr = data_addr };
  })
