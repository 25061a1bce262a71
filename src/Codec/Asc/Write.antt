-- ===== src/Codec/Asc/Write.antt =====
-- crates/cantools-codec/src/asc.rs: the line and the notes of an event in `write_asc`.
use cantools_rs.Prelude.{
  ℕ, Bool, some, List, [], ◌∷◌, ◌++◌, map, Bytes, length, is_some, if◌then◌else◌,
}
use mathlib.Core.Option
use cantools_rs.Prelude.Text.{codes}
use cantools_rs.Prelude.Hex.{format_hex}
use cantools_rs.Prelude.Decimal.{decimal}
use cantools_rs.Core.{
  Text, CanId, FrameClass, data_frame, remote, error, Direction, rx, tx, CaptureEvent,
}
use cantools_rs.Codec.{FidelityNote, lit}
use cantools_rs.Codec.Asc.{Seconds}

-- `.join(" ")`
abbrev pub join_blanks : List Text → Text
join_blanks [] = []
join_blanks (text ∷ []) = text
join_blanks (text ∷ next ∷ rest) = text ++ (b' ' ∷ join_blanks (next ∷ rest))

unfoldable pub encode_hex_bytes : Bytes → Text
encode_hex_bytes bytes = join_blanks (map (format_hex 2) bytes)

abbrev pub show_id : CanId → Text
show_id id = if id.extended then format_hex 8 id.raw ++ codes "x" else format_hex 3 id.raw

abbrev pub show_direction : Direction → Text
show_direction rx = codes "Rx"
show_direction tx = codes "Tx"

abbrev pub show_kind : FrameClass → Bool → Text
show_kind data_frame fd = if fd then codes "FD" else codes "d"
show_kind remote fd = codes "r"
show_kind error fd = []

-- Of a comment and the line of a frame, the one that is written.
abbrev pub line_for : FrameClass → (comment line : Text) → Text
line_for error comment line = comment
line_for data_frame comment line = line
line_for remote comment line = line

module _ {F : Type 0} (seconds : Seconds F) where
  -- The line of a frame that is no error frame.
  unfoldable pub frame_line : CaptureEvent → Text
  unfolding encode_hex_bytes
  frame_line event =
      seconds.show_seconds event.timestamp
      ++ (b' '
          ∷ (Option.get_or event.interface.name (codes "can0")
              ++ (b' '
                  ∷ (show_id event.frame.id
                      ++ (b' '
                          ∷ (show_direction event.direction
                              ++ (b' '
                                  ∷ (show_kind event.frame.class event.frame.fd
                                      ++ (b' '
                                          ∷ (decimal (length event.frame.payload)
                                              ++ (b' '
                                                  ∷ encode_hex_bytes event.frame.payload)))))))))))

  -- The line of an event; an error frame becomes a comment.
  abbrev pub event_line : CaptureEvent → Text
  event_line event =
      line_for event.frame.class
        (codes "// error frame "
          ++ (show_id event.frame.id ++ (b' ' ∷ show_direction event.direction)))
        (frame_line event)

-- The notes of an event, in their order.
abbrev pub event_notes : ℕ → CaptureEvent → List FidelityNote
event_notes index event =
    elim event.annotations [
      | [] ↦ []
      | ◌∷◌ a rest ↦
          record {
            event_index = some index;
            field = "annotations";
            detail = lit "ASC cannot persist structured annotations; annotations were omitted" ∷ [];
          }
          ∷ []
    ]
    ++ ((if is_some event.interface.index
          then record {
            event_index = some index;
            field = "interface_index";
            detail =
                lit
                  "ASC does not preserve numeric interface indices; only the interface name was written"
                ∷ [];
          }
            ∷ []
          else [])
        ++ elim event.frame.class [
          | error ↦
              record {
                event_index = some index;
                field = "frame_class";
                detail = lit "ASC export downgrades error frames into comment lines" ∷ [];
              }
              ∷ []
          | data_frame ↦ []
          | remote ↦ []
        ])
