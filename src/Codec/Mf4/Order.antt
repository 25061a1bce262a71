-- ===== src/Codec/Mf4/Order.antt =====
-- The blocks that `write_mf4` plans, and their order.
use cantools_rs.Prelude.{
  ℕ, ◌+◌, ◌<◌, ◌^◌, List, [], ◌∷◌, ◌++◌, ok, Bytes, length, All, ◌≡◌, refl, lt→ltb,
}
use cantools_rs.Prelude.Text.{codes}
use cantools_rs.Core.{CaptureEvent}
use cantools_rs.Codec.{FidelityNote}
use cantools_rs.Codec.Blf.Written.{total_ns}
use cantools_rs.Codec.Blf.{timestamp_to_ns}
use cantools_rs.Codec.Mf4.{record_notes}
use cantools_rs.Codec.Mf4.RoundTrip.{written, encode_record-written}
use cantools_rs.Codec.Mf4.Read.{channel_group_name}
use cantools_rs.Codec.Mf4.Blocks.{BlockHeader, channel_defs}
use cantools_rs.Codec.Mf4.Plan.{Plan, plan, write_records, first_time}
use cantools_rs.Codec.Mf4.Addresses.{
  Encoders, blocks_of, join, channels_of, write_channels-channels_of,
}

abbrev pub data_header : Bytes → BlockHeader
data_header payload = record {
  id = codes "##DT";
  reserved0 = 0;
  block_len = 24 + length payload;
  links_nr = 0;
}

-- The records of some events, and the notes on them from an index on.
abbrev pub records_of : List CaptureEvent → Bytes
records_of [] = []
records_of (event ∷ rest) = written event ++ records_of rest

abbrev pub notes_of : ℕ → List CaptureEvent → List FidelityNote
notes_of index [] = []
notes_of index (event ∷ rest) = record_notes index event ++ notes_of (index + 1) rest

pub write_records-records_of :
    {E : Type 0} (index : ℕ) (events : List CaptureEvent)
    → All (λ event. total_ns event < 2 ^ 64) events
    → write_records {E = E} index events ≡ ok (records_of events, notes_of index events)
unfolding write_records
write_records-records_of index [] h = refl
write_records-records_of {E} index (event ∷ rest) (small, h) =
    rw
      (
        encode_record-written {E = E} event small,
        write_records-records_of {E = E} (index + 1) rest h,
      )
      refl

-- `abs_time`.
abbrev pub start_of : List CaptureEvent → ℕ
start_of [] = 0
start_of (event ∷ rest) = total_ns event

pub first_time-start_of :
    {E : Type 0} (events : List CaptureEvent)
    → All (λ event. total_ns event < 2 ^ 64) events
    → first_time {E = E} events ≡ ok (start_of events)
unfolding timestamp_to_ns
first_time-start_of [] h = refl
first_time-start_of (event ∷ rest) (small, h) = rw (lt→ltb (total_ns event) (2 ^ 64) small) refl

abbrev pub concat : List Bytes → Bytes
concat [] = []
concat (bytes ∷ rest) = bytes ++ concat rest

module _ (z : Encoders) where
  abbrev pub planned : List CaptureEvent → ℕ → Plan
  planned events time =
      let comment = z.text (codes "cantools-rs capture-focused MF4 export") in
      let name = z.text channel_group_name in
      let group_addr = length z.identification + length z.default_header in
      let first = group_addr + 104 + 64 + length comment + length name in
      record {
        id_bytes = z.identification;
        comment_bytes = comment;
        group_name_bytes = name;
        channel_bytes = channels_of z first 0 channel_defs;
        header = record {
          first_dg_addr = group_addr + 104;
          comment_addr = group_addr + 104 + 64;
          abs_time = time;
          time_flags = 2;
        };
        channel_group = record {
          first_ch_addr = first;
          acq_name_addr = group_addr + 104 + 64 + length comment;
          comment_addr = group_addr + 104 + 64;
          cycles_nr = length events;
          samples_byte_nr = 116;
        };
        data_group = record {
          first_cg_addr = group_addr;
          data_block_addr = first + (0 + length (join (channels_of z first 0 channel_defs)));
        };
      }

  abbrev pub front : List CaptureEvent → List Bytes
  front events =
      let p = planned events (start_of events) in
      p.id_bytes
      ∷ z.header p.header
      ∷ z.channel_group p.channel_group
      ∷ z.data_group p.data_group
      ∷ p.comment_bytes
      ∷ p.group_name_bytes
      ∷ []

  abbrev pub tail : List CaptureEvent → List Bytes
  tail events = z.block_header (data_header (records_of events)) ∷ records_of events ∷ []

  pub plan_of :
      {E : Type 0} (events : List CaptureEvent) (time : ℕ)
      → first_time {E = E} events ≡ ok time
      → plan {E = E} (blocks_of z) events ≡ ok (planned events time)
  unfolding plan
  plan_of {E} events time timed =
      let first : ℕ =
        length z.identification
        + length z.default_header
        + 104
        + 64
        + length (z.text (codes "cantools-rs capture-focused MF4 export"))
        + length (z.text channel_group_name) in
      rw (write_channels-channels_of z first {E = E} 0 channel_defs, timed) refl
