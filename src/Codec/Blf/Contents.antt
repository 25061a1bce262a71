-- ===== src/Codec/Blf/Contents.antt =====
-- The contents of the file that `write_blf` writes.
use cantools_rs.Prelude.{
  ℕ, ◌+◌, ◌-◌, ◌*◌, ◌%◌, ◌^◌, ◌≡◌, List, [], ◌∷◌, ◌++◌, ok, Bytes, length, min, take, replicate,
}
use mathlib.Core.Option
use cantools_rs.Prelude.Endian.{le_bytes}
use cantools_rs.Core.{CaptureEvent}
use cantools_rs.Codec.{FidelityNote}
use cantools_rs.Codec.Blf.{CanMessage2Write, message_flags, raw_id}
use cantools_rs.Codec.Blf.Written.{total_ns, written}
use cantools_rs.Codec.Blf.Objects.{ObjectBaseHeaderWrite, export_notes}
use cantools_rs.Codec.Blf.File.{FileHeaderWrite, BlfWriter}
use cantools_rs.Codec.Blf.Layout.{message_bytes, base_header_bytes, file_header_bytes}

-- The first eight bytes of a payload, filled up with zeros.
abbrev pub padded : Bytes → Bytes
padded payload =
    let n : ℕ = min (length payload) 64 in take (min n 8) payload ++ replicate (8 - min n 8) 0

-- The 54 bytes of an event: 16 of the object's header, 16 of the header of its time, and the message.
abbrev pub object_bytes : CaptureEvent → Bytes
object_bytes event =
    let n : ℕ = min (length event.frame.payload) 64 in
    (b'L' ∷ b'O' ∷ b'B' ∷ b'J' ∷ 16 ∷ 0 ∷ 1 ∷ 0 ∷ 54 ∷ 0 ∷ 0 ∷ 0 ∷ 86 ∷ 0 ∷ 0 ∷ 0 ∷ [])
    ++ ((2 ∷ 0 ∷ 0 ∷ 0 ∷ 0 ∷ 0 ∷ 0 ∷ 0 ∷ [])
        ++ (le_bytes 8 (total_ns event)
            ++ (le_bytes 2 (Option.get_or event.interface.index 1)
                ++ (message_flags event % 256
                    ∷ n
                    ∷ (le_bytes 4 (raw_id event.frame)
                        ++ (n ∷ 0 ∷ 0 ∷ 0 ∷ n * 8 % 256 ∷ 0 ∷ padded event.frame.payload))))))

abbrev pub all_objects : List CaptureEvent → Bytes
all_objects [] = []
all_objects (event ∷ rest) = object_bytes event ++ all_objects rest

abbrev pub all_notes : ℕ → List CaptureEvent → List FidelityNote
all_notes index [] = []
all_notes index (event ∷ rest) = export_notes index event.annotations ++ all_notes (index + 1) rest

-- What `write_objects` writes of an event.
abbrev base_header : CaptureEvent → ObjectBaseHeaderWrite
base_header event = record {
  signature = b'L' ∷ b'O' ∷ b'B' ∷ b'J' ∷ [];
  header_size = 16;
  header_version = 1;
  object_size = (16 + length (message_bytes (written event))) % 2 ^ 32;
  object_type = 86;
}

-- The bytes of an event around its channel, two lengths and number of bits.
abbrev around : CaptureEvent → (channel dlc len bits : Bytes) → Bytes
around event channel dlc len bits =
    (b'L' ∷ b'O' ∷ b'B' ∷ b'J' ∷ 16 ∷ 0 ∷ 1 ∷ 0 ∷ 54 ∷ 0 ∷ 0 ∷ 0 ∷ 86 ∷ 0 ∷ 0 ∷ 0 ∷ [])
    ++ ((2 ∷ 0 ∷ 0 ∷ 0 ∷ 0 ∷ 0 ∷ 0 ∷ 0 ∷ [])
        ++ (le_bytes 8 (total_ns event)
            ++ (channel
                ++ (message_flags event % 256
                    ∷ (dlc
                        ++ (le_bytes 4 (raw_id event.frame)
                            ++ (len ++ (bits ++ (0 ∷ padded event.frame.payload)))))))))

-- `binrw` writes each struct in the order of its fields, and the file takes every write at its end.
pub record WritesInOrder {S IoError Path' : Type 0} (writer : BlfWriter S IoError Path')
    (file : writer.Handle) : Type 0 where
  pub contents : S → Bytes
  pub append : Bytes → S → S
  pub message : (m : CanMessage2Write) → writer.write_message m ≡ ok (message_bytes m)
  pub base : (h : ObjectBaseHeaderWrite) → writer.write_base_header h ≡ ok (base_header_bytes h)
  pub header :
      (h : FileHeaderWrite) (s : S)
      → writer.write_file_header file h s ≡ (ok tt, append (file_header_bytes h) s)
  pub writes : (bytes : Bytes) (s : S) → writer.write_all file bytes s ≡ (ok tt, append bytes s)
  pub flushes : (s : S) → writer.flush file s ≡ (ok tt, s)
  pub contents_append : (bytes : Bytes) (s : S) → contents (append bytes s) ≡ contents s ++ bytes
