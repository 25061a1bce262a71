-- ===== src/Cli/Commands.antt =====
-- crates/cantools-cli/src/main.rs: the commands and `main`. The arguments are parsed by `clap`, the
-- sequence by `toml`, databases by `can_dbc`, and captures are read by cantools-codec; the shell
-- completions, the manual page and the monitor are calls.
use cantools_rs.Prelude.{
  ℕ, zero, suc, Bool, true, Option, none, some, List, [], ◌∷◌, ◌++◌, map, Result, ok, err, panic,
  map_err,
}
use cantools_rs.Prelude.Float.{Float}
use cantools_rs.Prelude.Effect.{Step, ◌>>=◌, return, lift}
use cantools_rs.Prelude.Text.{codes}
use cantools_rs.Core.{Text, CanFrame}
use cantools_rs.Codec.{ReadReport, Piece}
use cantools_rs.Codec.Blf.File.{err_as}
use cantools_rs.Dbc.Types.{CanDbc, DecodedMessage}
use cantools_rs.Dbc.Decoder.{Decoder, decode_frame}
use cantools_rs.Cli.{CliError, failed, build_frame, render_frame}
use cantools_rs.Cli.World.{World}
use cantools_rs.Cli.Replay.{replay_mode, replay}
use cantools_rs.Cli.Report.{dump_line, report_lines}
use cantools_rs.Cli.Sequence.{SequenceStep, run_steps}

pub data ShellValue : Type 0 where
  bash elvish fish power_shell zsh : ShellValue

-- `Command`, with `GenCommand` in it.
pub data Command (Path' F : Type 0) : Type 0 where
  send : (interface id payload : Text) (fd brs esi : Bool) → Command Path' F
  dump : (interface : Text) (count : ℕ) (dbc_paths : List Path') → Command Path' F
  play : (interface : Text) (input : Path') (now : Bool) (scale : Option F) → Command Path' F
  sequence : (interface : Text) (file : Path') → Command Path' F
  report : (dbc : Path') → Command Path' F
  completions : ShellValue → Command Path' F
  manpage : Command Path' F
  monitor : (interface : Text) (limit : ℕ) → Command Path' F

-- The calls of other crates.
pub record Calls (S E Path' Decoder' Dbc' F : Type 0) : Type 0 where
  pub push_file : Decoder' → Path' → Step S E Decoder'
  pub read_path : Path' → Step S E ReadReport
  pub read_to_string : Path' → Step S E Text
  pub parse_sequence : Text → Result E (List SequenceStep)
  pub parse_dbc : Text → Result E Dbc'
  pub generate_completions : ShellValue → Step S E (Unit {0})
  pub render_manpage : Step S E (Unit {0})
  pub run_monitor : Text → ℕ → Step S E (Unit {0})
  pub show_pieces : List Piece → Text
  pub display : F → Text
  pub scaled : F → ℕ → ℕ

module _ {S E Path' : Type 0} (f64 : Float) (can_dbc : CanDbc f64.F) (world : World S E)
    (calls : Calls S E Path' (Decoder f64 can_dbc) can_dbc.Dbc f64.F)
    (message_size : can_dbc.Message → ℕ) where
  abbrev pub Io : Type 0 → Type 0
  Io A = Step S (CliError E) A

  unfoldable pub push_files : Decoder f64 can_dbc → List Path' → Io (Decoder f64 can_dbc)
  push_files decoder [] = return decoder
  push_files decoder (path ∷ rest) = do
    pushed ← err_as failed (calls.push_file decoder path)
    push_files pushed rest

  unfoldable pub load_decoder : List Path' → Io (Option (Decoder f64 can_dbc))
  unfolding push_files
  load_decoder [] = return none
  load_decoder (path ∷ rest) = do decoder ← push_files [] (path ∷ rest); return (some decoder)

  abbrev pub print : Text → Io (Unit {0})
  print text s = return tt (world.println text s)

  -- What the decoder makes of a frame; without a decoder, nothing. `decode_frame` makes no error.
  abbrev pub decoded :
      Option (Decoder f64 can_dbc) → CanFrame → Result (CliError E) (Option (DecodedMessage f64.F))
  decoded none frame = ok none
  decoded (some decoder) frame = elim (decode_frame f64 can_dbc decoder frame) [
    | ok outcome ↦ ok outcome.message
    | err e ↦ panic
    | panic ↦ panic
  ]

  abbrev pub dump_reply : Option (Decoder f64 can_dbc) → Option CanFrame → Io (Unit {0})
  dump_reply decoder none = return tt
  dump_reply decoder (some frame) = do
    message ← lift (decoded decoder frame)
    print (dump_line calls.display frame message)

  -- `for _ in 0..args.count`
  unfoldable pub dump_loop : world.Socket → Option (Decoder f64 can_dbc) → ℕ → Io (Unit {0})
  dump_loop socket decoder zero = return tt
  dump_loop socket decoder (suc count) = do
    reply ← err_as failed (world.recv socket)
    shown ← dump_reply decoder reply
    dump_loop socket decoder count

  abbrev pub print_all : (Text → S → S) → List Text → Io (Unit {0})
  print_all show [] s = return tt s
  print_all show (text ∷ rest) s = print_all show rest (show text s)

  -- A sequence that ran out of fuel has not ended.
  abbrev pub Run : Type 0
  Run = Option (Result (CliError E) (Unit {0}) × S)

  unfoldable pub run_send : (interface id payload : Text) (fd brs esi : Bool) → Io (Unit {0})
  run_send interface id payload fd brs esi = do
    frame ← lift (build_frame id payload fd brs esi)
    socket ← err_as failed (world.open_socket interface)
    sent ← err_as failed (world.send socket frame)
    print (render_frame frame)

  unfoldable pub run_dump : Text → ℕ → List Path' → Io (Unit {0})
  unfolding load_decoder push_files dump_loop
  run_dump interface count dbc_paths = do
    decoder ← load_decoder dbc_paths
    socket ← err_as failed (world.open_socket interface)
    dump_loop socket decoder count

  unfoldable pub run_play : Text → Path' → Bool → Option f64.F → Io (Unit {0})
  run_play interface input now factor = do
    socket ← err_as failed (world.open_socket interface)
    loaded ← err_as failed (calls.read_path input)
    played ← replay world calls.scaled socket (replay_mode now factor) none loaded.events
    print_all world.eprintln
        (map (λ note. codes "note: " ++ calls.show_pieces note.detail) loaded.notes)

  -- What comes before the steps: the file, its steps, and a socket that does not block.
  unfoldable pub open_sequence : Text → Path' → Io (List SequenceStep × world.Socket)
  open_sequence interface file = do
    content ← err_as failed (calls.read_to_string file)
    steps ← lift (map_err failed (calls.parse_sequence content))
    socket ← err_as failed (world.open_socket interface)
    set ← err_as failed (world.nonblocking socket true)
    return (steps, socket)

  abbrev pub after_open : ℕ → Result (CliError E) (List SequenceStep × world.Socket) × S → Run
  after_open fuel (ok (steps, socket), s) = run_steps world socket fuel steps s
  after_open fuel (err e, s) = some (err e, s)
  after_open fuel (panic, s) = some (panic, s)

  unfoldable pub run_sequence : ℕ → Text → Path' → S → Run
  unfolding open_sequence
  run_sequence fuel interface file s = after_open fuel (open_sequence interface file s)

  unfoldable pub run_report : Path' → Io (Unit {0})
  run_report path = do
    text ← err_as failed (calls.read_to_string path)
    dbc ← lift (map_err failed (calls.parse_dbc text))
    print_all world.println (report_lines can_dbc message_size (can_dbc.messages dbc))

  -- `main`, with the monitor built in.
  unfoldable pub run_command : ℕ → Command Path' f64.F → S → Run
  unfolding run_send run_dump load_decoder push_files dump_loop run_play run_sequence open_sequence
      run_report
  run_command fuel (send interface id payload fd brs esi) s =
      some (run_send interface id payload fd brs esi s)
  run_command fuel (dump interface count dbc_paths) s = some (run_dump interface count dbc_paths s)
  run_command fuel (play interface input now factor) s =
      some (run_play interface input now factor s)
  run_command fuel (sequence interface file) s = run_sequence fuel interface file s
  run_command fuel (report dbc) s = some (run_report dbc s)
  run_command fuel (completions shell) s = some (err_as failed (calls.generate_completions shell) s)
  run_command fuel manpage s = some (err_as failed calls.render_manpage s)
  run_command fuel (monitor interface limit) s =
      some (err_as failed (calls.run_monitor interface limit) s)
