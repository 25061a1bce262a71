-- ===== src/Lib.antt =====
-- A model of cantools-rs, a set of tools for CAN buses, with proofs of its core.
--
-- The program. A frame, an identifier, a timestamp and a capture event are the shared data
-- (crates/cantools-core). The SocketCAN backend (crates/cantools-socketcan) moves frames between
-- them and the kernel. Above frames stand ISO-TP (crates/cantools-isotp), which splits a payload
-- over frames and puts it together again, UDS (crates/cantools-uds), whose requests and responses
-- are such payloads, J1939 (crates/cantools-j1939), which reads the fields of an extended
-- identifier, and OBD (crates/cantools-obd), which reads values of a payload. The DBC decoder
-- (crates/cantools-dbc) reads the signals of a frame by the loaded databases. The codecs
-- (crates/cantools-codec) write capture events to files and read them, and the monitor
-- (crates/cantools-tui) shows the latest of them. The command line (crates/cantools-cli) sends, shows,
-- replays and awaits frames over a socket of the backend, and the build tasks (crates/xtask) generate
-- the tables of UDS, OBD and J1939 and check the repository.
--
-- The files. X.antt and X/ hold one crate; X/Tests.antt holds concrete runs.
-- Core: crates/cantools-core/src/lib.rs, with `CanId::standard` and `extended`, `CanFrame::new`,
--   `dlc`, `Timestamp::from_system_time` and `CaptureEvent::new` under these names. A checked
--   constructor returns a `Result`.
-- Isotp: crates/cantools-isotp/src/lib.rs. `Reassembler` is a record; `ingest` returns its reply and
--   the next state. `segment_fuelled` counts the rounds of the loop of `segment`; `segment` gives it
--   one round for each byte, which is enough as a round takes a byte.
-- Uds: crates/cantools-uds/src/lib.rs and generated.rs. `Transport` is a state and a call on it;
--   `send` is `Client::send`.
-- J1939: crates/cantools-j1939/src/lib.rs and generated.rs. `from_raw` is `J1939Id::from_can_id`
--   behind its guard.
-- Obd: crates/cantools-obd/src/lib.rs and generated.rs, the two decoders and the table.
-- Dbc: crates/cantools-dbc/src/lib.rs. Dbc/Types has the types, Dbc/Bits the extraction of bits and
--   `sign_extend`, Dbc/Decoder the rest: `decode_frame` is the choice of databases (`find_matches`),
--   the multiplexor (`mux_value`) and the loop over the signals (`decode_signals`).
-- Socketcan: crates/cantools-socketcan/src/lib.rs. Socketcan/Wire has the structs that are written
--   and read, as bytes; Socketcan/Backend the calls, each a function from the state of the system to
--   a result and a state.
-- Codec: crates/cantools-codec/src/lib.rs, blf.rs, mf4.rs and asc.rs. Codec/Format is the choice
--   between the codecs (`from_path`, `read_path`, `write_path`). Codec/Blf has the struct of an event
--   (`build_can_message`) and what the reader makes of one (`read_message`, the arm of the loop of
--   `read_blf`); Codec/Blf/Objects the two loops, Codec/Blf/File `read_blf` and `write_blf`,
--   Codec/Blf/Layout the bytes of the structs that are written.
--   Codec/Mf4 has the record of an event (`encode_record` and `decode_record`), Codec/Mf4/Read the
--   loops of `read_mf4`, Codec/Mf4/Blocks the blocks, Codec/Mf4/Plan what `write_mf4` computes before
--   it creates the file, Codec/Mf4/Write the writes. Codec/Asc has one line of a log (`read_line`, the
--   body of the loop of `read_asc`), Codec/Asc/Blanks `trim` and `split_whitespace` with the blanks of
--   Unicode, Codec/Asc/File `read_asc`, Codec/Asc/Write the line and the notes of an event, and
--   Codec/Asc/Export `write_asc`.
-- Monitor: crates/cantools-tui/src/lib.rs. `run_loop` goes by rounds: what the socket, the terminal and
--   the keyboard answer in one turn; it returns the screens that it draws and how it stands.
-- Cli: crates/cantools-cli/src/main.rs. Cli itself has the texts of frames (`parse_id`,
--   `parse_hex_bytes`, `build_frame`, `render_frame`), Cli/Replay `replay`, Cli/Expect the loop of a
--   step `expect`, Cli/Sequence the steps, Cli/Report the printed lines, and Cli/Commands the commands
--   and `main` (`run_command`). Cli/World is what they use of sockets, clock and terminal, with the
--   sockets of Socketcan as one instance. The loop of `expect` has no bound of its own and runs on
--   fuel: two rounds more than nanoseconds are left until the deadline are enough.
-- Xtask: crates/xtask/src/main.rs. Xtask/Files has `walkdir`, which takes fuel above the number of
--   directories, `check_placeholders` and `write_if_changed`, Xtask/Tables and Xtask/Codegen the
--   generated tables, Xtask/Shell the quoting, Xtask/Process and Xtask/Ci the commands and `main`
--   (`run_task`).
-- Prelude: no crate; the results, effects, numbers, bytes and texts that the others share.
--
-- Numbers. Every number is a natural number, with the wrap-around of its width written out;
-- `usize` has 64 bits. `Result` has a third case, `panic`, for an index out of range, an
-- overflowing shift or sum, and a slice that does not fit. `f64` is a parameter (Prelude/Float),
-- and so are the crates `can_dbc`, `ablf`, `binrw` and `mf4-rs`, the transport of a UDS client,
-- processes, the file system and libc.
--
-- Not modelled: what the crate `ablf` makes of the bytes that `write_blf` writes; the call of
-- `read_path` by the command line, which takes it as a parameter; the parsing of arguments, the
-- shell completions and the manual page of the command line; `repo_root` of the build tasks, a
-- constant of the build; of the crates above, what the monitor draws, the shims of the backend for
-- other platforms, and the texts of most error messages.
mod Prelude
pub mod Core
pub mod Isotp
pub mod Uds
pub mod J1939
pub mod Obd
pub mod Dbc
pub mod Socketcan
pub mod Codec
pub mod Monitor
pub mod Cli
pub mod Xtask
