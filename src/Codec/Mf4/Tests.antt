-- ===== src/Codec/Mf4/Tests.antt =====
-- Concrete runs of the MF4 codec, after the test of crates/cantools-codec/src/mf4.rs.
use cantools_rs.Prelude.{
  ℕ, ◌+◌, ◌≡◌, refl, true, false, none, some, Option, replicate, List, [], ◌∷◌, ◌++◌, ok, Bytes,
  length, arith,
}
use cantools_rs.Prelude.Int.{pos}
use cantools_rs.Core.{Text, CoreError, CaptureEvent, data_frame, tx}
use cantools_rs.Codec.Mf4.{encode_record, decode_record}
use cantools_rs.Codec.Mf4.RoundTrip.{
  IsRecordable, as_recorded, written, encode_record-written, decode_record-encode_record,
}
use cantools_rs.Codec.Mf4.Read.{Mdf, channel_group_name, read_mf4}
use cantools_rs.Codec.Mf4.Write.{FileWriter, write_mf4}
use cantools_rs.Codec.Mf4.Addresses.{Encoders, blocks_of}
use cantools_rs.Codec.Mf4.Order.{records_of, notes_of}
use cantools_rs.Codec.Mf4.Parts.{Appends}
use cantools_rs.Codec.Mf4.Linked.{IsLinked, write_mf4-IsLinked}
use cantools_rs.Codec.Mf4.ReadBack.{read_mf4-Groups, Records, Blocks, Groups}

abbrev event : CaptureEvent
event = record {
  timestamp = record { seconds = pos 11; nanos = 25 };
  interface = record { name = some (118 ∷ 99 ∷ 97 ∷ 110 ∷ 49 ∷ []); index = some 2 };
  direction = tx;
  frame = record {
    id = record { raw = 0x18daf110; extended = true };
    class = data_frame;
    payload = 2 ∷ 0x10 ∷ 3 ∷ [];
    fd = true;
    fd_flags = record { bit_rate_switch = true; error_state_indicator = false };
  };
  annotations = [];
}

-- Every text here is ASCII.
abbrev ascii : Bytes → Text
ascii bytes = bytes

event-IsRecordable : IsRecordable event
event-IsRecordable = record {
  valid = record { id_fits = omega arith; payload_fits = omega arith };
  small_nanos = omega arith;
  small_time = omega arith;
  short_name = omega arith;
  no_zero = omega arith;
  small_index = omega arith;
}

decode_record-encode_record_example :
    (bytes : Bytes) × (encode_record {E = CoreError} event ≡ ok bytes)
    × (length bytes ≡ 116)
    × (decode_record ascii bytes ≡ ok (as_recorded event))
decode_record-encode_record_example =
    decode_record-encode_record {E = CoreError} ascii event event-IsRecordable refl

-- A file with a group that has no name, and the capture: one block with a short record and the event.
abbrev two_groups : Mdf ℕ ℕ
two_groups = record {
  MdfFile = Unit {0};
  ChannelGroup = Option Text;
  DataBlock = List Bytes;
  MdfError = Text;
  from_file = λ path s. (ok tt, s + 1);
  error_text = λ e. e;
  channel_groups = λ file. none ∷ some channel_group_name ∷ [];
  name = λ group. ok group;
  samples_byte_nr = λ group. 116;
  data_blocks = λ group. ok (((7 ∷ []) ∷ written event ∷ []) ∷ []);
  records = λ block size. block;
}

read_mf4-Groups_example :
    read_mf4 {IoError = ℕ} two_groups ascii 0 5
    ≡ (ok (record { events = as_recorded event ∷ []; notes = [] }), 6)
read_mf4-Groups_example =
    read_mf4-Groups two_groups ascii {IoError = ℕ} 0 5 6 tt (as_recorded event ∷ []) refl (
      Groups.skipped none refl refl (
        Groups.capture {events = as_recorded event ∷ []} (((7 ∷ []) ∷ written event ∷ []) ∷ []) refl
          refl
          (Blocks.block {events = as_recorded event ∷ []}
            (Records.short (omega arith) (
              Records.event event (encode_record-written {E = CoreError} event (omega arith))
                event-IsRecordable refl Records.end))
            Blocks.end)
          Groups.end))

-- Files that hold what is appended to them, and blocks of zeros.
abbrev memory : FileWriter Bytes ℕ ℕ
memory = record {
  Handle = Unit {0};
  create = λ path s. (ok tt, []);
  write_all = λ file bytes s. (ok tt, s ++ bytes);
  flush = λ file s. (ok tt, s);
}

memory-Appends : Appends memory (λ s. s)
memory-Appends = record {
  handle = λ path s. tt;
  after_create = λ path s. [];
  creates = λ path s. refl;
  empty = λ path s. refl;
  after_write = λ file bytes s. s ++ bytes;
  writes = λ file bytes s. refl;
  appended = λ file bytes s. refl;
  after_flush = λ file s. s;
  flushes = λ file s. refl;
  kept = λ file s. refl;
}

abbrev zeros : Encoders
zeros = record {
  default_header = replicate 104 0;
  identification = replicate 64 0;
  text = λ t. replicate 24 0 ++ t;
  block_header = λ b. replicate 24 0;
  channel = λ b. replicate 160 0;
  header = λ b. replicate 104 0;
  channel_group = λ b. replicate 104 0;
  data_group = λ b. replicate 64 0;
  header_size = λ b. refl;
  channel_size = λ b. refl;
  channel_group_size = λ b. refl;
  data_group_size = λ b. refl;
}

write_mf4-IsLinked_example :
    (s' : Bytes) × (write_mf4 memory (blocks_of zeros) (λ e. e) 0 (event ∷ []) (9 ∷ [])
      ≡ (ok (record { notes = notes_of 0 (event ∷ []) }), s'))
    × IsLinked zeros s' (records_of (event ∷ [])) 1
write_mf4-IsLinked_example =
    write_mf4-IsLinked memory (λ s. s) memory-Appends zeros (λ e. e) 0 (event ∷ []) (9 ∷ [])
      (omega arith, tt)
