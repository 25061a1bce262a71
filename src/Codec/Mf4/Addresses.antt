-- ===== src/Codec/Mf4/Addresses.antt =====
-- The file that `write_mf4` writes: each address in a block is where the block it names starts. The
-- blocks have the sizes that `mf4_rs` documents, and the file keeps what is written.
use cantools_rs.Prelude.{
  ℕ, ◌+◌, true, false, List, [], ◌∷◌, ◌++◌, ok, Bytes, length, drop, ◌≡◌, refl, ◌∙◌, ap, subst,
  arith, append_assoc, length-append, drop-append,
}
use cantools_rs.Core.{Text}
use cantools_rs.Codec.Mf4.Blocks.{
  ChannelDef, BlockHeader, ChannelBlock, HeaderBlock, ChannelGroupBlock, DataGroupBlock, BlockBytes,
  channel_block, write_channels, is_empty,
}

-- Block encoders that do not fail, with the sizes of the blocks.
pub record Encoders : Type 0 where
  pub default_header : Bytes
  pub identification : Bytes
  pub text : Text → Bytes
  pub block_header : BlockHeader → Bytes
  pub channel : ChannelBlock → Bytes
  pub header : HeaderBlock → Bytes
  pub channel_group : ChannelGroupBlock → Bytes
  pub data_group : DataGroupBlock → Bytes
  pub header_size : (b : HeaderBlock) → length (header b) ≡ length default_header
  pub channel_size : (b : ChannelBlock) → length (channel b) ≡ 160
  pub channel_group_size : (b : ChannelGroupBlock) → length (channel_group b) ≡ 104
  pub data_group_size : (b : DataGroupBlock) → length (data_group b) ≡ 64

abbrev pub blocks_of : {E : Type 0} → Encoders → BlockBytes E
blocks_of z = record {
  default_header = ok z.default_header;
  identification = ok z.identification;
  text = λ t. ok (z.text t);
  block_header = λ b. ok (z.block_header b);
  channel = λ b. ok (z.channel b);
  header = λ b. ok (z.header b);
  channel_group = λ b. ok (z.channel_group b);
  data_group = λ b. ok (z.data_group b);
}

-- A block stands at an address of a file.
abbrev pub At : Bytes → ℕ → Bytes → Type 0
At contents addr block = (rest : Bytes) × (drop addr contents ≡ block ++ rest)

-- From an address on stand the channels of some definitions: each one's `next_ch_addr` is where the next
-- one starts, or 0 at the last, and its `name_addr` is where its name starts.
abbrev pub Channels : Encoders → Bytes → ℕ → List ChannelDef → Type 0
Channels z contents addr [] = addr ≡ 0
Channels z contents addr (def ∷ rest) =
    (block : ChannelBlock) × (block.byte_offset ≡ def.byte_offset)
    × (block.bit_count ≡ def.bit_count)
    × At contents addr (z.channel block)
    × At contents block.name_addr (z.text def.name)
    × Channels z contents block.next_ch_addr rest

pub At-of_parts :
    (contents pre block post : Bytes) (addr : ℕ)
    → contents ≡ pre ++ (block ++ post)
    → addr ≡ length pre
    → At contents addr block
At-of_parts contents pre block post addr e placed = (
  post,
  ap (drop addr) e
      ∙ ap (λ n. drop n (pre ++ (block ++ post))) placed
      ∙ drop-append pre (block ++ post),
)

-- The bytes of channels and names.
abbrev pub join : List (Bytes × Bytes) → Bytes
join [] = []
join ((a, b) ∷ rest) = a ++ (b ++ join rest)

module _ (z : Encoders) (first_channel_addr : ℕ) where
  -- What `write_channels` makes of some definitions.
  unfoldable pub channels_of : ℕ → List ChannelDef → List (Bytes × Bytes)
  channels_of size [] = []
  channels_of size (def ∷ rest) =
      let block =
        channel_block def (first_channel_addr + size) (length (z.text def.name)) (is_empty rest) in
      (z.channel block, z.text def.name)
      ∷ channels_of (size + (length (z.channel block) + length (z.text def.name))) rest

  pub write_channels-channels_of :
      {E : Type 0} (size : ℕ) (defs : List ChannelDef)
      → write_channels {E = E} (blocks_of z) first_channel_addr size defs
        ≡ ok (channels_of size defs, size + length (join (channels_of size defs)))
  unfolding write_channels channels_of
  write_channels-channels_of size [] = ap (λ n. ok ([], n)) {x = size} (omega arith)
  write_channels-channels_of {E} size (def ∷ rest) =
      let channel : Bytes = z.channel (
        channel_block def (first_channel_addr + size) (length (z.text def.name)) (is_empty rest)) in
      let name : Bytes = z.text def.name in
      let further : List (Bytes × Bytes) =
        channels_of (size + (length channel + length name)) rest in
      let total : size + (length channel + length name) + length (join further)
          ≡ size + length (channel ++ (name ++ join further)) =
        omega (
          arith,
          length-append channel (name ++ join further),
          length-append name (join further),
        ) in
      rw (write_channels-channels_of {E = E} (size + (length channel + length name)) rest)
        (ap (λ n. ok ((channel, name) ∷ further, n)) total)

  -- The channels stand where they are said to, after other blocks and before others.
  pub channels_of-Channels :
      (contents : Bytes) (size : ℕ) (def : ChannelDef) (rest : List ChannelDef) (pre post : Bytes)
      → contents ≡ pre ++ (join (channels_of size (def ∷ rest)) ++ post)
      → length pre ≡ first_channel_addr + size
      → Channels z contents (first_channel_addr + size) (def ∷ rest)
  unfolding channel_block channels_of
  channels_of-Channels contents size def [] pre post holds placed =
      let addr : ℕ = first_channel_addr + size in
      let block : ChannelBlock = channel_block def addr (length (z.text def.name)) true in
      let name : Bytes = z.text def.name in
      (
        block,
        refl,
        refl,
        At-of_parts contents pre (z.channel block) (name ++ post) addr (holds ∙ simp append_assoc)
            (omega (arith, placed)),
        At-of_parts contents (pre ++ z.channel block) name post (addr + 160)
            (holds ∙ simp append_assoc)
            (omega (arith, placed, length-append pre (z.channel block), z.channel_size block)),
        refl,
      )
  channels_of-Channels contents size def (next ∷ rest) pre post holds placed =
      let addr : ℕ = first_channel_addr + size in
      let block : ChannelBlock = channel_block def addr (length (z.text def.name)) false in
      let name : Bytes = z.text def.name in
      let size' : ℕ = size + (length (z.channel block) + length name) in
      let more : Bytes = join (channels_of size' (next ∷ rest)) in
      let further : Channels z contents (first_channel_addr + size') (next ∷ rest) =
        channels_of-Channels contents size' next rest (pre ++ (z.channel block ++ name)) post
          (holds ∙ simp append_assoc)
          (omega (
            arith,
            placed,
            length-append pre (z.channel block ++ name),
            length-append (z.channel block) name,
          )) in
      (
        block,
        refl,
        refl,
        At-of_parts contents pre (z.channel block) (name ++ (more ++ post)) addr
            (holds ∙ simp append_assoc) (omega (arith, placed)),
        At-of_parts contents (pre ++ z.channel block) name (more ++ post) (addr + 160)
            (holds ∙ simp append_assoc)
            (omega (arith, placed, length-append pre (z.channel block), z.channel_size block)),
        subst (λ a. Channels z contents a (next ∷ rest)) {x = first_channel_addr + size'}
            {y = addr + 160 + length name} (omega (arith, z.channel_size block)) further,
      )
