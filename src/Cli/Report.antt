-- ===== src/Cli/Report.antt =====
-- crates/cantools-cli/src/main.rs: what the commands print about frames and databases. `display` shows an
-- `f64`, and `message_size` is a field of `can_dbc`.
use cantools_rs.Prelude.{ℕ, ◌-◌, Option, none, some, List, [], ◌∷◌, ◌++◌, map, length, replicate}
use cantools_rs.Prelude.Text.{codes}
use cantools_rs.Prelude.Decimal.{decimal}
use cantools_rs.Core.{Text, CanFrame}
use cantools_rs.Dbc.Types.{CanDbc, DecodedMessage}
use cantools_rs.Cli.{render_frame}

-- `{:>8}`
abbrev pub pad_8 : Text → Text
pad_8 text = replicate (8 - length text) b' ' ++ text

-- `.join(", ")`
abbrev pub join_commas : List Text → Text
join_commas [] = []
join_commas (text ∷ []) = text
join_commas (text ∷ next ∷ rest) = text ++ codes ", " ++ join_commas (next ∷ rest)

-- The line of a frame in a dump, with the signals of the message that it decodes to.
unfoldable pub dump_line : {F : Type 0} → (F → Text) → CanFrame → Option (DecodedMessage F) → Text
dump_line display frame none = render_frame frame
dump_line display frame (some message) =
    render_frame frame
    ++ codes "  "
    ++ join_commas
        (map (λ signal. signal.name ++ codes "=" ++ display signal.scaled) message.signals)

module _ {F : Type 0} (can_dbc : CanDbc F) where
  open can_dbc use {
    Dbc, Message, Signal, messages, message_id, raw, message_name, signals, signal_name, start_bit,
    size, unit,
  }

  abbrev pub signal_line : Signal → Text
  signal_line signal =
      codes "  "
      ++ signal_name signal
      ++ codes " start="
      ++ decimal (start_bit signal)
      ++ codes " size="
      ++ decimal (size signal)
      ++ codes " unit="
      ++ unit signal

  abbrev pub message_line : (Message → ℕ) → Message → Text
  message_line message_size message =
      message_name message
      ++ codes " "
      ++ pad_8 (decimal (message_size message))
      ++ codes " bytes "
      ++ decimal (raw (message_id message))

  -- The lines of `gen report`.
  unfoldable pub report_lines : (Message → ℕ) → List Message → List Text
  report_lines message_size [] = []
  report_lines message_size (message ∷ rest) =
      message_line message_size message
      ∷ (map signal_line (signals message) ++ report_lines message_size rest)
