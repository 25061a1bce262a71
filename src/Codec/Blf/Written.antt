-- ===== src/Codec/Blf/Written.antt =====
-- The struct that `build_can_message` makes of an event.
use cantools_rs.Prelude.{
  ℕ, ◌+◌, ◌-◌, ◌*◌, ◌%◌, ◌^◌, ◌<◌, min, ◌++◌, ok, length, take, replicate, ◌≡◌, refl, lt→ltb,
}
use mathlib.Core.Option
use cantools_rs.Prelude.Int.{pos_part}
use cantools_rs.Core.{CaptureEvent}
use cantools_rs.Codec.Blf.{
  CanMessage2Write, timestamp_to_ns, raw_id, message_flags, build_can_message,
}

abbrev pub total_ns : CaptureEvent → ℕ
total_ns event = pos_part event.timestamp.seconds * 1_000_000_000 + event.timestamp.nanos

abbrev pub written : CaptureEvent → CanMessage2Write
written event =
    let n : ℕ = min (length event.frame.payload) 64 in
    record {
      header = record { flags = 2; client_index = 0; version = 0; timestamp_ns = total_ns event };
      channel = Option.get_or event.interface.index 1 % 2 ^ 16;
      flags = message_flags event;
      dlc = n % 2 ^ 8;
      id = raw_id event.frame;
      frame_length_ns = n;
      bit_count = n * 8 % 2 ^ 8;
      ext_data_offset = 0;
      payload = take (min n 8) event.frame.payload ++ replicate (8 - min n 8) 0;
    }

pub build-written :
    {E : Type 0} (event : CaptureEvent)
    → total_ns event < 2 ^ 64
    → build_can_message {E = E} event ≡ ok (written event)
unfolding build_can_message timestamp_to_ns
build-written event small = rw (lt→ltb (total_ns event) (2 ^ 64) small) refl
