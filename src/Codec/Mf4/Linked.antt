-- ===== src/Codec/Mf4/Linked.antt =====
-- The whole file that `write_mf4` leaves: each address leads to the block that it names.
use cantools_rs.Prelude.{
  ℕ, ◌+◌, ◌<◌, ◌^◌, List, [], ◌∷◌, ◌++◌, ok, Bytes, length, All, ◌≡◌, ◌≢◌, subst, refl, ◌∙◌, arith,
  append_assoc, length-append,
}
use cantools_rs.Prelude.Text.{codes}
use cantools_rs.Core.{Text, CaptureEvent}
use cantools_rs.Codec.Blf.Written.{total_ns}
use cantools_rs.Codec.Mf4.Read.{channel_group_name}
use cantools_rs.Codec.Mf4.Blocks.{
  ChannelDef, HeaderBlock, ChannelGroupBlock, DataGroupBlock, channel_defs,
}
use cantools_rs.Codec.Mf4.Plan.{Plan}
use cantools_rs.Codec.Mf4.Write.{FileWriter, write_mf4}
use cantools_rs.Codec.Mf4.Addresses.{
  Encoders, blocks_of, At, Channels, At-of_parts, join, channels_of, channels_of-Channels,
}
use cantools_rs.Codec.Mf4.Order.{
  data_header, records_of, notes_of, start_of, concat, planned, front, tail,
}
use cantools_rs.Codec.Mf4.Parts.{Appends, after, write_mf4-after, contents-after}

-- A file of some records: every address leads to its block.
pub record IsLinked (z : Encoders) (contents payload : Bytes) (count : ℕ) : Type 0 where
  pub header : HeaderBlock
  pub channel_group : ChannelGroupBlock
  pub data_group : DataGroupBlock
  pub at_header : At contents (length z.identification) (z.header header)
  pub at_data_group : At contents header.first_dg_addr (z.data_group data_group)
  pub at_channel_group : At contents data_group.first_cg_addr (z.channel_group channel_group)
  pub at_comment :
      At contents header.comment_addr (z.text (codes "cantools-rs capture-focused MF4 export"))
  pub same_comment : channel_group.comment_addr ≡ header.comment_addr
  pub at_name : At contents channel_group.acq_name_addr (z.text channel_group_name)
  pub at_channels : Channels z contents channel_group.first_ch_addr channel_defs
  pub at_records :
      At contents data_group.data_block_addr (z.block_header (data_header payload) ++ payload)
  pub record_count : channel_group.cycles_nr ≡ count
  pub record_size : channel_group.samples_byte_nr ≡ 116

Channels-of_parts :
    (z : Encoders) (contents : Bytes) (first : ℕ) (defs : List ChannelDef) (pre post : Bytes)
    → defs ≢ []
    → contents ≡ pre ++ (join (channels_of z first 0 defs) ++ post)
    → length pre ≡ first
    → Channels z contents first defs
Channels-of_parts z contents first [] pre post some_def e placed = absurd (some_def refl)
Channels-of_parts z contents first (def ∷ rest) pre post some_def e placed =
    subst (λ a. Channels z contents a (def ∷ rest)) {x = first + 0} {y = first} (omega arith)
      (channels_of-Channels z first contents 0 def rest pre post e (omega (arith, placed)))

channel_defs-some : channel_defs ≢ []
unfolding channel_defs
channel_defs-some e = cc e

-- The file has its blocks in the order of `front`, then the channels, then the records.
linked :
    (z : Encoders) (contents : Bytes) (events : List CaptureEvent)
    → contents
      ≡ concat (front z events)
        ++ (join (planned z events (start_of events)).channel_bytes ++ concat (tail z events))
    → IsLinked z contents (records_of events) (length events)
linked z contents events e =
    let p : Plan = planned z events (start_of events) in
    let header : Bytes = z.header p.header in
    let group : Bytes = z.channel_group p.channel_group in
    let data_group : Bytes = z.data_group p.data_group in
    let channels : Bytes = join p.channel_bytes in
    let last : Bytes = concat (tail z events) in
    let a : Bytes = p.id_bytes ++ header in
    let b : Bytes = a ++ group in
    let c : Bytes = b ++ data_group in
    let d : Bytes = c ++ p.comment_bytes in
    let f : Bytes = d ++ p.group_name_bytes in
    let to_a : length a ≡ length z.identification + length z.default_header =
      omega (arith, length-append p.id_bytes header, z.header_size p.header) in
    let to_b : length b ≡ length a + 104 =
      omega (arith, length-append a group, z.channel_group_size p.channel_group) in
    let to_c : length c ≡ length b + 64 =
      omega (arith, length-append b data_group, z.data_group_size p.data_group) in
    let to_d : length d ≡ length c + length p.comment_bytes = length-append c p.comment_bytes in
    let to_f : length f ≡ length d + length p.group_name_bytes =
      length-append d p.group_name_bytes in
    let rest_a : Bytes =
      group ++ (data_group ++ (p.comment_bytes ++ (p.group_name_bytes ++ (channels ++ last)))) in
    let rest_b : Bytes =
      data_group ++ (p.comment_bytes ++ (p.group_name_bytes ++ (channels ++ last))) in
    let rest_c : Bytes = p.comment_bytes ++ (p.group_name_bytes ++ (channels ++ last)) in
    let rest_d : Bytes = p.group_name_bytes ++ (channels ++ last) in
    let rest_f : Bytes = channels ++ last in
    record {
      header = p.header;
      channel_group = p.channel_group;
      data_group = p.data_group;
      at_header =
          At-of_parts contents p.id_bytes header rest_a (length z.identification)
            (e ∙ simp append_assoc) refl;
      at_data_group =
          At-of_parts contents b data_group rest_c p.header.first_dg_addr (e ∙ simp append_assoc)
            (omega (arith, to_a, to_b));
      at_channel_group =
          At-of_parts contents a group rest_b p.data_group.first_cg_addr (e ∙ simp append_assoc)
            (omega (arith, to_a));
      at_comment =
          At-of_parts contents c p.comment_bytes rest_d p.header.comment_addr
            (e ∙ simp append_assoc) (omega (arith, to_a, to_b, to_c));
      same_comment = refl;
      at_name =
          At-of_parts contents d p.group_name_bytes rest_f p.channel_group.acq_name_addr
            (e ∙ simp append_assoc) (omega (arith, to_a, to_b, to_c, to_d));
      at_channels =
          Channels-of_parts z contents p.channel_group.first_ch_addr channel_defs f last
            channel_defs-some (e ∙ simp append_assoc) (omega (arith, to_a, to_b, to_c, to_d, to_f));
      at_records =
          At-of_parts contents (f ++ channels)
            (z.block_header (data_header (records_of events)) ++ records_of events) []
            p.data_group.data_block_addr (e ∙ simp append_assoc)
            (omega (arith, to_a, to_b, to_c, to_d, to_f, length-append f channels));
      record_count = refl;
      record_size = refl;
    }

-- Where block encoders with the documented sizes do not fail and the file system does not either,
-- `write_mf4` succeeds for events whose times fit 64 bits of nanoseconds. The file then holds a header
-- right after the identification; its address of the data group, that group's address of the channel
-- group, and the addresses of the comment, the group's name, the channels with their names, and the
-- records are where those blocks start; each channel's next address is where the next one starts, the
-- last one's is 0; and the group counts the events, of 116 bytes each. The notes are those of all events.
pub write_mf4-IsLinked :
    {S IoError Path' MdfError : Type 0} (writer : FileWriter S IoError Path') (contents : S → Bytes)
    (appends : Appends writer contents) (z : Encoders) (error_text : MdfError → Text) (path : Path')
    (events : List CaptureEvent) (s : S)
    → All (λ event. total_ns event < 2 ^ 64) events
    → (s' : S) × (write_mf4 writer (blocks_of z) error_text path events s
        ≡ (ok (record { notes = notes_of 0 events }), s'))
      × IsLinked z (contents s') (records_of events) (length events)
write_mf4-IsLinked writer contents appends z error_text path events s small = (
  after writer contents appends z error_text path events s,
  write_mf4-after writer contents appends z error_text path events s small,
  linked z (contents (after writer contents appends z error_text path events s)) events
      (contents-after writer contents appends z error_text path events s),
)
