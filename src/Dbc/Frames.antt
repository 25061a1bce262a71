-- ===== src/Dbc/Frames.antt =====
-- `decode_frame`: how databases are chosen, and the outcome.
use cantools_rs.Prelude.{
  ℕ, ◌+◌, ◌≡◌, ◌≢◌, refl, sym, subst, map-map, length-map, find-All, ap, ◌∙◌, Bool, none, some, ok,
  Bytes, All, List, [], ◌∷◌, map, length, find, filter_by, is_some, ◌==◌, if◌then◌else◌, arith,
  Option-cases, inl, inr,
}
use cantools_rs.Prelude.Bits.{bit_or-shl, bit_or_comm}
use cantools_rs.Prelude.Float.{Float}
use cantools_rs.Core.{CanId, CanFrame}
use cantools_rs.Core.Validation.{IsValidId}
use cantools_rs.Dbc.Decoder.{
  CanDbc, Decoder, DecodeOutcome, Diagnostic, no_match, ambiguous_message, frame_message_id,
  find_matches, decode_match, decode_matches, decode_frame,
}
use cantools_rs.Dbc.Extract.{IsPayload, reading}
use cantools_rs.Dbc.Signals.{
  LoadedDb, kept, dropped, short, mux_of, MessageExtractable, mux_value-mux_of,
  decode_signals_partition,
}

frame_message_id_sum :
    (id : CanId)
    → IsValidId id
    → frame_message_id id ≡ (if id.extended then 0x8000_0000 + id.raw else id.raw)
unfolding frame_message_id
frame_message_id_sum id h = ground (arith, bit_or_comm 0x8000_0000 id.raw, bit_or-shl 31 1 id.raw)

-- Two valid identifiers have one message number only if they are the same, with the same format: a
-- standard and an extended identifier of one raw value are kept apart.
pub frame_message_id-injective :
    (a b : CanId) → IsValidId a → IsValidId b → frame_message_id a ≡ frame_message_id b → a ≡ b
frame_message_id-injective a b ha hb e =
    ground (arith, frame_message_id_sum a ha, frame_message_id_sum b hb)

module _ (f64 : Float) (can_dbc : CanDbc f64.F) where
  open can_dbc use {
    Dbc, Message, MessageId, Signal, messages, message_id, message_name, raw, signals, signal_name,
    start_bit, size, byte_order, message_multiplexor_switch,
  }

  abbrev has_message : ℕ → LoadedDb f64 can_dbc → Bool
  has_message id database =
      is_some (find (λ message. raw (message_id message) == id) (messages database.dbc))

  -- The databases that `decode_frame` finds are those that have a message for the identifier.
  find_matches-databases :
      (id : ℕ) (databases : Decoder f64 can_dbc)
      → map (λ m. m.0) (find_matches f64 can_dbc databases id)
        ≡ filter_by (has_message id) databases
  unfolding find_matches
  find_matches-databases id [] = refl
  find_matches-databases id (database ∷ rest) =
      elim (Option-cases (find (λ m. raw (message_id m) == id) (messages database.dbc))) [
        | inl none_found ↦ rw (none_found, find_matches-databases id rest)
        | inr (m, found) ↦ rw (found, find_matches-databases id rest)
      ]

  -- Every signal of every message of the loaded databases has 1 to 64 bits and starts below the bit
  -- 2^63.
  abbrev pub DatabasesExtractable : Decoder f64 can_dbc → Type 0
  DatabasesExtractable =
      All λ database. All (MessageExtractable f64 can_dbc database) (messages database.dbc)

  -- What is decoded of one message.
  abbrev pub decoded : LoadedDb f64 can_dbc → Message → Bytes → DecodeOutcome f64.F
  decoded database message payload =
      let id = message_id message in
      let mux = mux_of f64 can_dbc database id payload in
      record {
        message = some (record {
          database = database.name;
          message_name = message_name message;
          signals =
              map (reading f64 can_dbc database id payload)
                (kept f64 can_dbc mux payload (signals message));
        });
        diagnostics =
            map (short f64 can_dbc payload) (dropped f64 can_dbc mux payload (signals message));
      }

  decode_match-decoded :
      (database : LoadedDb f64 can_dbc) (message : Message) (payload : Bytes)
      → IsPayload payload
      → MessageExtractable f64 can_dbc database message
      → decode_match f64 can_dbc database message payload ≡ ok (decoded database message payload)
  unfolding decode_match
  decode_match-decoded database message payload bytes sized = rw (
    mux_value-mux_of f64 can_dbc database message payload bytes sized,
    decode_signals_partition f64 can_dbc database (message_id message)
        (mux_of f64 can_dbc database (message_id message) payload) payload (signals message) bytes
        sized.all_sized,
  )

  -- What is said of a frame that does not have exactly one database.
  abbrev unmatched : ℕ → List (LoadedDb f64 can_dbc) → Diagnostic
  unmatched id [] = no_match id
  unmatched id (first ∷ rest) = ambiguous_message id (map (λ d. d.name) (first ∷ rest))

  -- The outcome by the databases that have a message for the frame.
  abbrev outcome : CanFrame → List (LoadedDb f64 can_dbc) → DecodeOutcome f64.F
  outcome frame hits = record { message = none; diagnostics = unmatched frame.id.raw hits ∷ [] }

  unmatched_outcome :
      (frame : CanFrame) (list : List (LoadedDb f64 can_dbc × Message))
      → length list ≢ 1
      → decode_matches f64 can_dbc frame list ≡ ok (outcome frame (map (λ m. m.0) list))
  unfolding decode_matches
  unmatched_outcome frame [] h = refl
  unmatched_outcome frame (m ∷ []) h = absurd (h refl)
  unmatched_outcome frame (m ∷ n ∷ rest) h =
      ap
        (λ names.
          ok (record { message = none; diagnostics = ambiguous_message frame.id.raw names ∷ [] }))
        (sym (map-map (λ d. d.name) (λ m. m.0) (m ∷ n ∷ rest)))

  -- Where no database, or more than one, has a message for the frame's identifier and format,
  -- `decode_frame` returns no message and one diagnostic, which names all such databases in order.
  pub decode_frame-unmatched :
      (databases : Decoder f64 can_dbc) (frame : CanFrame)
      → length (filter_by (has_message (frame_message_id frame.id)) databases) ≢ 1
      → decode_frame f64 can_dbc databases frame
        ≡ ok (outcome frame (filter_by (has_message (frame_message_id frame.id)) databases))
  unfolding decode_frame
  decode_frame-unmatched databases frame h =
      subst (λ hits. decode_matches f64 can_dbc frame list ≡ ok (outcome frame hits)) same
        (unmatched_outcome frame list
          (λ one. h (subst (λ hits. length hits ≡ 1) same (length-map (λ m. m.0) list ∙ one))))
    where
      id : ℕ
      id = frame_message_id frame.id

      list : List (LoadedDb f64 can_dbc × Message)
      list = find_matches f64 can_dbc databases id

      same : map (λ m. m.0) list ≡ filter_by (has_message id) databases
      same = find_matches-databases id databases

  abbrev IsGood : ℕ → LoadedDb f64 can_dbc × Message → Type 0
  IsGood id p =
      (find (λ m. raw (message_id m) == id) (messages p.0.dbc) ≡ some p.1)
      × MessageExtractable f64 can_dbc p.0 p.1

  matches-IsGood :
      (id : ℕ) (databases : Decoder f64 can_dbc)
      → DatabasesExtractable databases
      → All (IsGood id) (find_matches f64 can_dbc databases id)
  unfolding find_matches
  matches-IsGood id [] sized = tt
  matches-IsGood id (database ∷ rest) (head, sized) =
      elim (Option-cases (find (λ m. raw (message_id m) == id) (messages database.dbc))) [
        | inl none_found ↦ rw none_found (matches-IsGood id rest sized)
        | inr (m, found) ↦ rw found (
          (
            found,
            find-All (MessageExtractable f64 can_dbc database) _ (messages database.dbc) head found,
          ),
          matches-IsGood id rest sized,
        )
      ]

  only_match :
      (Q : LoadedDb f64 can_dbc × Message → Type 0) (list : List (LoadedDb f64 can_dbc × Message))
      {database : LoadedDb f64 can_dbc}
      → map (λ m. m.0) list ≡ database ∷ []
      → All Q list
      → (message : Message) × (list ≡ (database, message) ∷ []) × Q (database, message)
  only_match Q [] e q = cc
  only_match Q ((first, message) ∷ []) {database} e (q, _) =
      let same : first ≡ database = cc in
      (message, ap (λ d. (d, message) ∷ []) same, subst (λ d. Q (d, message)) same q)
  only_match Q (m ∷ n ∷ rest) e q = cc

  decode_single :
      (frame : CanFrame) (database : LoadedDb f64 can_dbc) (message : Message)
      → IsPayload frame.payload
      → MessageExtractable f64 can_dbc database message
      → decode_matches f64 can_dbc frame ((database, message) ∷ [])
        ≡ ok (decoded database message frame.payload)
  unfolding decode_matches
  decode_single frame database message bytes good =
      decode_match-decoded database message frame.payload bytes good

  -- For a payload of fewer than 2^60 bytes, where all signals have 1 to 64 bits and start below the bit
  -- 2^63, and exactly one database has a message for the frame's identifier and format, `decode_frame`
  -- does not panic: it returns what is decoded of the first such message of that database.
  pub decode_frame-matched :
      (databases : Decoder f64 can_dbc) (frame : CanFrame) (database : LoadedDb f64 can_dbc)
      → IsPayload frame.payload
      → DatabasesExtractable databases
      → filter_by (has_message (frame_message_id frame.id)) databases ≡ database ∷ []
      → (message : Message) × (find
            (λ m. raw (message_id m) == frame_message_id frame.id)
            (messages database.dbc)
          ≡ some message)
        × (decode_frame f64 can_dbc databases frame ≡ ok (decoded database message frame.payload))
  unfolding decode_frame
  decode_frame-matched databases frame database bytes sized unique =
      let id = frame_message_id frame.id in
      let (message, only, (found, good)) =
        only_match (IsGood id) (find_matches f64 can_dbc databases id)
          (find_matches-databases id databases ∙ unique) (matches-IsGood id databases sized) in
      (
        message,
        found,
        ap (decode_matches f64 can_dbc frame) only
            ∙ decode_single frame database message bytes good,
      )
