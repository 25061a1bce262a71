-- ===== src/Codec/Asc/Contents.antt =====
-- The contents of the file that `write_asc` writes.
use cantools_rs.Prelude.{List, [], ◌∷◌, ◌++◌, map, ok, ◌≡◌, refl, sym, append_assoc, append-nil}
use cantools_rs.Prelude.Text.{codes}
use cantools_rs.Core.{Text, CaptureEvent}
use cantools_rs.Codec.Mf4.Write.{FileWriter}
use cantools_rs.Codec.Asc.{Seconds}
use cantools_rs.Codec.Asc.Write.{event_line}
use cantools_rs.Codec.Asc.Export.{all_notes, write_events, write_asc}
use cantools_rs.Codec.Asc.WholeLog.{log_lines}

-- Lines, each with its line feed.
abbrev pub unlines : List Text → Text
unlines [] = []
unlines (line ∷ rest) = line ++ (10 ∷ unlines rest)

-- An open file that takes every write at its end and keeps what it holds on a flush.
pub record Appends {S IoError Path' : Type 0} (writer : FileWriter S IoError Path')
    (file : writer.Handle) : Type 0 where
  pub contents : S → Text
  pub append : Text → S → S
  pub writes : (text : Text) (s : S) → writer.write_all file text s ≡ (ok tt, append text s)
  pub flushes : (s : S) → writer.flush file s ≡ (ok tt, s)
  pub contents_append : (text : Text) (s : S) → contents (append text s) ≡ contents s ++ text

abbrev append_lines : {S : Type 0} → (Text → S → S) → List Text → S → S
append_lines append [] s = s
append_lines append (line ∷ rest) s = append_lines append rest (append (line ++ (10 ∷ [])) s)

append_lines-++ :
    {S : Type 0} (append : Text → S → S) (first later : List Text) (s : S)
    → append_lines append (first ++ later) s
      ≡ append_lines append later (append_lines append first s)
append_lines-++ append [] later s = refl
append_lines-++ append (line ∷ rest) later s =
    append_lines-++ append rest later (append (line ++ (10 ∷ [])) s)

module _ {F S IoError Path' : Type 0} (seconds : Seconds F) (writer : FileWriter S IoError Path')
    (file : writer.Handle) (appends : Appends writer file) where
  contents-append_lines :
      (lines : List Text) (s : S)
      → appends.contents (append_lines appends.append lines s) ≡ appends.contents s ++ unlines lines
  contents-append_lines [] s = sym (append-nil (appends.contents s))
  contents-append_lines (line ∷ rest) s =
      rw
        (
          contents-append_lines rest (appends.append (line ++ (10 ∷ [])) s),
          appends.contents_append (line ++ (10 ∷ [])) s,
        )
        (rw
          (
            append_assoc (appends.contents s) (line ++ (10 ∷ [])) (unlines rest),
            append_assoc line (10 ∷ []) (unlines rest),
          )
          refl)

  write_events-lines :
      (events : List CaptureEvent) (s : S)
      → write_events seconds writer file events s
        ≡ (ok tt, append_lines appends.append (map (event_line seconds) events) s)
  unfolding write_events
  write_events-lines [] s = refl
  write_events-lines (event ∷ rest) s =
      rw
        (
          appends.writes (event_line seconds event ++ (10 ∷ [])) s,
          write_events-lines rest (appends.append (event_line seconds event ++ (10 ∷ [])) s),
        )
        refl

  write_asc-lines :
      (path : Path') (s s' : S) (events : List CaptureEvent)
      → writer.create path s ≡ (ok file, s')
      → write_asc seconds writer path events s ≡ (
        ok (record { notes = all_notes 0 events }),
        append_lines appends.append (log_lines seconds events) s',
      )
  unfolding write_asc
  write_asc-lines path s s' events creates =
      rw
        (
          append_lines-++ appends.append (map (event_line seconds) events)
              (codes "End TriggerBlock" ∷ []),
          creates,
          appends.writes,
          appends.writes,
          appends.writes,
          write_events-lines,
          appends.writes,
          appends.flushes,
        )
        refl

  -- Where the file is created empty and takes every write at its end, `write_asc` leaves in it the
  -- lines of the log, each with a line feed, and returns the notes of the events.
  pub write_asc-log_lines :
      (path : Path') (s s' : S) (events : List CaptureEvent)
      → writer.create path s ≡ (ok file, s')
      → appends.contents s' ≡ []
      → ((write_asc seconds writer path events s).0 ≡ ok (record { notes = all_notes 0 events }))
        × (appends.contents (write_asc seconds writer path events s).1
            ≡ unlines (log_lines seconds events))
  unfolding write_asc
  write_asc-log_lines path s s' events creates is_new =
      rw
        (
          write_asc-lines path s s' events creates,
          contents-append_lines (log_lines seconds events) s',
          is_new,
        )
        (refl, refl)
