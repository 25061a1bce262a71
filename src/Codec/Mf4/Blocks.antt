-- ===== src/Codec/Mf4/Blocks.antt =====
-- crates/cantools-codec/src/mf4.rs: the blocks that `write_mf4` builds. The block types and their
-- `to_bytes` are those of `mf4_rs`: a default block and a text block have only their bytes here, the
-- header, channel group and data group have the fields that differ from the default, and a channel has
-- the fields that are not 0, 0.0 or `None`.
use Prim.Native.String.{String}
use cantools_rs.Prelude.{
  ℕ, ◌+◌, true, false, Bool, List, [], ◌∷◌, Result, ok, ◌>>=◌, Bytes, length, if◌then◌else◌,
}
use cantools_rs.Prelude.Text.{codes}
use cantools_rs.Core.{Text}

pub data DataType : Type 0 where
  unsigned_integer_le : DataType
  string_latin1 : DataType
  byte_array : DataType

pub record ChannelDef : Type 0 where
  pub name : Text
  pub byte_offset : ℕ
  pub bit_count : ℕ
  pub data_type : DataType
  -- `*name == "timestamp_ns"`
  pub is_time : Bool

abbrev pub channel_def : String → ℕ → ℕ → DataType → Bool → ChannelDef
channel_def name byte_offset bit_count data_type is_time = record {
  name = codes name;
  byte_offset = byte_offset;
  bit_count = bit_count;
  data_type = data_type;
  is_time = is_time;
}

unfoldable pub channel_defs : List ChannelDef
channel_defs =
    channel_def "timestamp_ns" 0 64 unsigned_integer_le true
    ∷ channel_def "can_id" 8 32 unsigned_integer_le false
    ∷ channel_def "flags" 12 16 unsigned_integer_le false
    ∷ channel_def "interface_index" 14 32 unsigned_integer_le false
    ∷ channel_def "data_len" 18 8 unsigned_integer_le false
    ∷ channel_def "interface_name" 20 256 string_latin1 false
    ∷ channel_def "data" 52 512 byte_array false
    ∷ []

pub record BlockHeader : Type 0 where
  pub id : Text
  pub reserved0 : ℕ
  pub block_len : ℕ
  pub links_nr : ℕ

pub record ChannelBlock : Type 0 where
  pub header : BlockHeader
  pub next_ch_addr : ℕ
  pub name_addr : ℕ
  pub sync_type : ℕ
  pub data_type : DataType
  pub byte_offset : ℕ
  pub bit_count : ℕ

pub record HeaderBlock : Type 0 where
  pub first_dg_addr : ℕ
  pub comment_addr : ℕ
  pub abs_time : ℕ
  pub time_flags : ℕ

pub record ChannelGroupBlock : Type 0 where
  pub first_ch_addr : ℕ
  pub acq_name_addr : ℕ
  pub comment_addr : ℕ
  pub cycles_nr : ℕ
  pub samples_byte_nr : ℕ

pub record DataGroupBlock : Type 0 where
  pub first_cg_addr : ℕ
  pub data_block_addr : ℕ

-- `to_bytes` of each block.
pub record BlockBytes (E : Type 0) : Type 0 where
  pub default_header : Result E Bytes
  pub identification : Result E Bytes
  pub text : Text → Result E Bytes
  pub block_header : BlockHeader → Result E Bytes
  pub channel : ChannelBlock → Result E Bytes
  pub header : HeaderBlock → Result E Bytes
  pub channel_group : ChannelGroupBlock → Result E Bytes
  pub data_group : DataGroupBlock → Result E Bytes

-- The channel at an address; the last channel has no next one.
unfoldable pub channel_block :
    ChannelDef → (current_addr name_len : ℕ) → (is_last : Bool) → ChannelBlock
channel_block def current_addr name_len is_last = record {
  header = record { id = codes "##CN"; reserved0 = 0; block_len = 160; links_nr = 8 };
  next_ch_addr = if is_last then 0 else current_addr + 160 + name_len;
  name_addr = current_addr + 160;
  sync_type = if def.is_time then 1 else 0;
  data_type = def.data_type;
  byte_offset = def.byte_offset;
  bit_count = def.bit_count;
}

abbrev pub is_empty {ℓ} : {A : Type ℓ} → List A → Bool
is_empty [] = true
is_empty (x ∷ xs) = false

-- The loop over `channel_defs`: the bytes of each channel and of its name, and `channel_data_size`,
-- which is the size so far on the way in.
module _ {E : Type 0} (blocks : BlockBytes E) (first_channel_addr : ℕ) where
  unfoldable pub write_channels : ℕ → List ChannelDef → Result E (List (Bytes × Bytes) × ℕ)
  write_channels channel_data_size [] = ok ([], channel_data_size)
  write_channels channel_data_size (def ∷ rest) = do
    name_bytes ← blocks.text def.name
    let current_addr = first_channel_addr + channel_data_size
    bytes ← blocks.channel (channel_block def current_addr (length name_bytes) (is_empty rest))
    later ← write_channels (channel_data_size + (length bytes + length name_bytes)) rest
    ok ((bytes, name_bytes) ∷ later.0, later.1)
