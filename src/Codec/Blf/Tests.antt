-- ===== src/Codec/Blf/Tests.antt =====
-- Concrete runs of the BLF codec, after the test of crates/cantools-codec/src/blf.rs.
use cantools_rs.Prelude.{ℕ, ◌+◌, refl, true, false, some, List, [], ◌∷◌, ◌++◌, ok, Bytes}
use cantools_rs.Prelude.Text.{codes}
use cantools_rs.Prelude.Int.{pos}
use cantools_rs.Core.{CaptureEvent, CanId, data_frame, tx}
use cantools_rs.Codec.Blf.{Object, can_message, other, CanMessage}
use cantools_rs.Codec.Blf.Read.{Held, carrying, foreign}
use cantools_rs.Codec.Blf.File.{Ablf, BlfWriter}
use cantools_rs.Codec.Blf.Layout.{message_bytes, base_header_bytes, file_header_bytes}
use cantools_rs.Codec.Blf.Contents.{WritesInOrder}

abbrev event : CaptureEvent
event = record {
  timestamp = record { seconds = pos 2; nanos = 5 };
  interface = record { name = some (99 ∷ 97 ∷ 110 ∷ 48 ∷ []); index = some 2 };
  direction = tx;
  frame = record {
    id = record { raw = 0x18daf110; extended = true };
    class = data_frame;
    payload = 2 ∷ 0x10 ∷ 3 ∷ [];
    fd = false;
    fd_flags = record { bit_rate_switch = false; error_state_indicator = false };
  };
  annotations = [];
}

-- A file whose contents are the state.
abbrev in_memory : BlfWriter Bytes ℕ ℕ
in_memory = record {
  write_message = λ m. ok (message_bytes m);
  write_base_header = λ h. ok (base_header_bytes h);
  Handle = ℕ;
  create = λ path s. (ok 3, []);
  write_file_header = λ file h s. (ok tt, s ++ file_header_bytes h);
  write_all = λ file bytes s. (ok tt, s ++ bytes);
  flush = λ file s. (ok tt, s);
}

abbrev in_memory-WritesInOrder : WritesInOrder in_memory 3
in_memory-WritesInOrder = record {
  contents = λ s. s;
  append = λ bytes s. s ++ bytes;
  message = λ m. refl;
  base = λ h. refl;
  header = λ h s. refl;
  writes = λ bytes s. refl;
  flushes = λ s. refl;
  contents_append = λ bytes s. refl;
}

abbrev message : CanMessage
message = record {
  id = 0x98da_f110;
  dlc = 3;
  bit_count = 24;
  payload = 2 ∷ 0x10 ∷ 3 ∷ 0 ∷ 0 ∷ 0 ∷ 0 ∷ 0 ∷ [];
  timestamp_ns = 2_000_000_005;
  channel = 2;
  flags = 1;
}

abbrev address : CanId
address = record { raw = 0x18da_f110; extended = true }

abbrev held : List Held
held = foreign (codes "CanError") ∷ carrying message address data_frame 2 5 ∷ []

-- A file system whose every file holds these two objects.
abbrev two_objects : Ablf ℕ ℕ ℕ
two_objects = record {
  BlfFile = List Object;
  from_reader = λ path s. (ok (other (codes "CanError") ∷ can_message message ∷ []), s + 1);
  is_valid = λ file. true;
  objects = λ file. file;
  display = λ path. [];
}
