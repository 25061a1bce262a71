-- ===== src/Codec/Mf4/Parts.antt =====
-- The bytes that `write_mf4` leaves in the file, in their order.
use cantools_rs.Prelude.{
  ◌<◌, ◌^◌, List, [], ◌∷◌, ◌++◌, ok, Bytes, All, ◌≡◌, refl, ◌∙◌, sym, ap, append_assoc, append-nil,
}
use cantools_rs.Core.{Text, CaptureEvent}
use cantools_rs.Codec.{CodecError}
use cantools_rs.Codec.Blf.Written.{total_ns}
use cantools_rs.Codec.Mf4.Plan.{Plan}
use cantools_rs.Codec.Mf4.Write.{FileWriter, put_channels, write_mf4}
use cantools_rs.Codec.Mf4.Addresses.{Encoders, blocks_of, join}
use cantools_rs.Codec.Mf4.Order.{
  data_header, records_of, notes_of, write_records-records_of, start_of, first_time-start_of,
  concat, planned, front, tail, plan_of,
}

-- A file system that does not fail: a created file is empty, `write_all` appends, `flush` keeps.
pub record Appends {S IoError Path' : Type 0} (writer : FileWriter S IoError Path')
    (contents : S → Bytes) : Type 0 where
  pub handle : Path' → S → writer.Handle
  pub after_create : Path' → S → S
  pub creates :
      (path : Path') (s : S) → writer.create path s ≡ (ok (handle path s), after_create path s)
  pub empty : (path : Path') (s : S) → contents (after_create path s) ≡ []
  pub after_write : writer.Handle → Bytes → S → S
  pub writes :
      (file : writer.Handle) (bytes : Bytes) (s : S)
      → writer.write_all file bytes s ≡ (ok tt, after_write file bytes s)
  pub appended :
      (file : writer.Handle) (bytes : Bytes) (s : S)
      → contents (after_write file bytes s) ≡ contents s ++ bytes
  pub after_flush : writer.Handle → S → S
  pub flushes : (file : writer.Handle) (s : S) → writer.flush file s ≡ (ok tt, after_flush file s)
  pub kept : (file : writer.Handle) (s : S) → contents (after_flush file s) ≡ contents s

module _ {S IoError Path' MdfError : Type 0} (writer : FileWriter S IoError Path')
    (contents : S → Bytes) (appends : Appends writer contents) (z : Encoders)
    (error_text : MdfError → Text) where
  abbrev pub after_channels : writer.Handle → List (Bytes × Bytes) → S → S
  after_channels file [] s = s
  after_channels file ((channel, name) ∷ rest) s =
      after_channels file rest (appends.after_write file name (appends.after_write file channel s))

  put_channels-after_channels :
      (file : writer.Handle) (channels : List (Bytes × Bytes)) (s : S)
      → put_channels writer (blocks_of {E = MdfError} z) error_text file channels s
        ≡ (ok tt, after_channels file channels s)
  unfolding put_channels
  put_channels-after_channels file [] s = refl
  put_channels-after_channels file ((channel, name) ∷ rest) s =
      rw
        (
          appends.writes file channel s,
          appends.writes file name (appends.after_write file channel s),
          put_channels-after_channels file rest
              (appends.after_write file name (appends.after_write file channel s)),
        )
        refl

  contents-after_channels :
      (file : writer.Handle) (channels : List (Bytes × Bytes)) (s : S)
      → contents (after_channels file channels s) ≡ contents s ++ join channels
  contents-after_channels file [] s = sym (append-nil (contents s))
  contents-after_channels file ((channel, name) ∷ rest) s =
      rw
        (
          contents-after_channels file rest
              (appends.after_write file name (appends.after_write file channel s)),
          appends.appended file name (appends.after_write file channel s),
          appends.appended file channel s,
        )
        (simp append_assoc)

  abbrev pub after_all : writer.Handle → List Bytes → S → S
  after_all file [] s = s
  after_all file (bytes ∷ rest) s = after_all file rest (appends.after_write file bytes s)

  contents-after_all :
      (file : writer.Handle) (parts : List Bytes) (s : S)
      → contents (after_all file parts s) ≡ contents s ++ concat parts
  contents-after_all file [] s = sym (append-nil (contents s))
  contents-after_all file (bytes ∷ rest) s =
      rw
        (
          contents-after_all file rest (appends.after_write file bytes s),
          appends.appended file bytes s,
        )
        (append_assoc (contents s) bytes (concat rest))

  -- The state that `write_mf4` leaves.
  abbrev pub after : Path' → List CaptureEvent → S → S
  after path events s =
      let file = appends.handle path s in
      let p = planned z events (start_of events) in
      appends.after_flush file (
        after_all file (tail z events) (
          after_channels file p.channel_bytes
            (after_all file (front z events) (appends.after_create path s))))

  pub write_mf4-after :
      (path : Path') (events : List CaptureEvent) (s : S)
      → All (λ event. total_ns event < 2 ^ 64) events
      → write_mf4 writer (blocks_of z) error_text path events s
        ≡ (ok (record { notes = notes_of 0 events }), after path events s)
  unfolding write_mf4
  write_mf4-after path events s small =
      let file = appends.handle path s in
      let p : Plan = planned z events (start_of events) in
      let s0 : S = appends.after_create path s in
      let s1 : S = appends.after_write file p.id_bytes s0 in
      let s2 : S = appends.after_write file (z.header p.header) s1 in
      let s3 : S = appends.after_write file (z.channel_group p.channel_group) s2 in
      let s4 : S = appends.after_write file (z.data_group p.data_group) s3 in
      let s5 : S = appends.after_write file p.comment_bytes s4 in
      let s6 : S = appends.after_write file p.group_name_bytes s5 in
      let s7 : S = after_channels file p.channel_bytes s6 in
      let s8 : S = appends.after_write file (z.block_header (data_header (records_of events))) s7 in
      let s9 : S = appends.after_write file (records_of events) s8 in
      rw
        (
          plan_of z {E = MdfError} events (start_of events) (first_time-start_of events small),
          write_records-records_of {E = CodecError IoError} 0 events small,
          appends.creates path s,
          appends.writes file p.id_bytes s0,
          appends.writes file (z.header p.header) s1,
          appends.writes file (z.channel_group p.channel_group) s2,
          appends.writes file (z.data_group p.data_group) s3,
          appends.writes file p.comment_bytes s4,
          appends.writes file p.group_name_bytes s5,
          put_channels-after_channels file p.channel_bytes s6,
          appends.writes file (z.block_header (data_header (records_of events))) s7,
          appends.writes file (records_of events) s8,
          appends.flushes file s9,
        )
        refl

  pub contents-after :
      (path : Path') (events : List CaptureEvent) (s : S)
      → contents (after path events s)
        ≡ concat (front z events)
          ++ (join (planned z events (start_of events)).channel_bytes ++ concat (tail z events))
  contents-after path events s =
      let file = appends.handle path s in
      let p : Plan = planned z events (start_of events) in
      let s0 : S = appends.after_create path s in
      let s6 : S = after_all file (front z events) s0 in
      let s7 : S = after_channels file p.channel_bytes s6 in
      appends.kept file (after_all file (tail z events) s7)
      ∙ contents-after_all file (tail z events) s7
      ∙ ap (λ c. c ++ concat (tail z events))
          (contents-after_channels file p.channel_bytes s6
            ∙ ap (λ c. c ++ join p.channel_bytes)
                (contents-after_all file (front z events) s0
                  ∙ ap (λ c. c ++ concat (front z events)) (appends.empty path s)))
      ∙ append_assoc (concat (front z events)) (join p.channel_bytes) (concat (tail z events))
