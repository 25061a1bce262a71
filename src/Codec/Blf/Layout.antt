-- ===== src/Codec/Blf/Layout.antt =====
-- crates/cantools-codec/src/blf.rs: the bytes of the structs that derive `BinWrite` with
-- `#[bw(little)]`: their fields in the order of the struct, each with its low byte first.
use cantools_rs.Prelude.{ℕ, List, [], ◌∷◌, ◌++◌, Bytes}
use cantools_rs.Prelude.Endian.{le_bytes}
use cantools_rs.Codec.Blf.{CanMessage2Write}
use cantools_rs.Codec.Blf.Objects.{ObjectBaseHeaderWrite}
use cantools_rs.Codec.Blf.File.{FileHeaderWrite}

-- An array of integers of `size` bytes.
abbrev pub array_bytes : ℕ → List ℕ → Bytes
array_bytes size [] = []
array_bytes size (n ∷ rest) = le_bytes size n ++ array_bytes size rest

abbrev pub message_bytes : CanMessage2Write → Bytes
message_bytes m =
    le_bytes 4 m.header.flags
    ++ (le_bytes 2 m.header.client_index
        ++ (le_bytes 2 m.header.version
            ++ (le_bytes 8 m.header.timestamp_ns
                ++ (le_bytes 2 m.channel
                    ++ (le_bytes 1 m.flags
                        ++ (le_bytes 1 m.dlc
                            ++ (le_bytes 4 m.id
                                ++ (le_bytes 4 m.frame_length_ns
                                    ++ (le_bytes 1 m.bit_count
                                        ++ (le_bytes 1 m.ext_data_offset ++ m.payload))))))))))

abbrev pub base_header_bytes : ObjectBaseHeaderWrite → Bytes
base_header_bytes h =
    h.signature
    ++ (le_bytes 2 h.header_size
        ++ (le_bytes 2 h.header_version ++ (le_bytes 4 h.object_size ++ le_bytes 4 h.object_type)))

abbrev pub file_header_bytes : FileHeaderWrite → Bytes
file_header_bytes h =
    h.signature
    ++ (le_bytes 4 h.stats_size
        ++ (le_bytes 4 h.api_version
            ++ (le_bytes 1 h.application_id
                ++ (le_bytes 1 h.application_major
                    ++ (le_bytes 1 h.application_minor
                        ++ (le_bytes 1 h.application_build
                            ++ (le_bytes 8 h.file_size
                                ++ (le_bytes 8 h.uncompressed_size
                                    ++ (le_bytes 4 h.object_count
                                        ++ (le_bytes 4 h.objects_read
                                            ++ (array_bytes 2 h.measurement_start_time
                                                ++ (array_bytes 2 h.last_object_time
                                                    ++ array_bytes 4 h.reserved))))))))))))
