-- ===== src/Dbc/Decoder.antt =====
-- crates/cantools-dbc/src/lib.rs: the multi-database decoder. The crate `can_dbc` is a parameter: its
-- types are opaque, with the fields and calls that the decoder uses. `f64`, the file system and paths
-- are parameters too.
use cantools_rs.Prelude.{
  ℕ, ◌-◌, ◌%◌, ◌^◌, bit_or, Bool, true, false, Option, none, some, List, [], ◌∷◌, ◌++◌, map, Result,
  ok, err, panic, ◌>>=◌, map_err, ok_value, Bytes, length, find, leb, ◌==◌, if◌then◌else◌,
}
use cantools_rs.Prelude.Int.{ℤ, pos, negsuc, signed}
use cantools_rs.Prelude.Float.{Float}
use cantools_rs.Core.{Text, CanId, CanFrame}
use cantools_rs.Dbc.Bits.{
  DiagnosticError, payload_too_short, add_usize, mul_usize, last_bit, extract_little_endian,
  extract_big_endian, sign_extend,
}
pub use cantools_rs.Dbc.Types.{
  ByteOrder, little_endian, big_endian, ValueType, signed_value, unsigned_value, MultiplexIndicator,
  plain, multiplexor, multiplexed_signal, multiplexor_and_multiplexed_signal, CanDbc, DecodedSignal,
  DecodedMessage, Diagnostic, no_match, ambiguous_message, short_payload, DecodeOutcome, LoadError,
  io, parse,
}
use mathlib.Core.Option

unfoldable pub frame_message_id : CanId → ℕ
frame_message_id id = if id.extended then bit_or 0x8000_0000 id.raw else id.raw

-- `==` of `i64`
abbrev pub eq_ℤ : ℤ → ℤ → Bool
eq_ℤ (pos m) (pos n) = m == n
eq_ℤ (negsuc m) (negsuc n) = m == n
eq_ℤ _ _ = false

-- `mux_value == Some(expected as i64)`
abbrev pub selects : Option ℤ → ℕ → Bool
selects none expected = false
selects (some value) expected = eq_ℤ value (signed 64 expected)

unfoldable pub active : MultiplexIndicator → Option ℤ → Bool
active plain mux_value = true
active multiplexor mux_value = true
active (multiplexed_signal expected) mux_value = selects mux_value expected
active (multiplexor_and_multiplexed_signal expected) none = true
active (multiplexor_and_multiplexed_signal expected) (some value) = selects (some value) expected

-- `max_signal_bit`; `saturating_sub` is the subtraction of ℕ.
unfoldable pub max_bit : ByteOrder → ℕ → ℕ → Result DiagnosticError ℕ
unfolding add_usize last_bit
max_bit little_endian start len = add_usize start (len - 1)
max_bit big_endian start len = last_bit (len - 1) start

unfoldable pub extract_ordered : ByteOrder → Bytes → ℕ → ℕ → Result DiagnosticError ℕ
extract_ordered little_endian payload start len = extract_little_endian payload start len
extract_ordered big_endian payload start len = extract_big_endian payload start len

-- `signal.size as u32`, and `raw as i64`
unfoldable pub signed_as : ValueType → ℕ → ℕ → Result DiagnosticError ℤ
signed_as signed_value size value = sign_extend value (size % 2 ^ 32)
signed_as unsigned_value size value = ok (signed 64 value)

module _ (f64 : Float) (can_dbc : CanDbc f64.F) where
  open f64 use {F, of_int, add, mul}
  open can_dbc use {
    Dbc, ParseError, try_from, Message, MessageId, Signal, ValDescription, messages, message_id,
    raw, message_name, signals, signal_name, start_bit, size, byte_order, value_type, factor,
    offset, unit, multiplexer_indicator, message_multiplexor_switch, value_descriptions_for_signal,
    description_id, description,
  }

  pub record LoadedDbc : Type 0 where
    pub name : Text
    pub dbc : Dbc

  -- `struct Decoder` holds this list.
  abbrev pub Decoder : Type 0
  Decoder = List LoadedDbc

  unfoldable pub push_named :
      {IoError : Type 0} → Decoder → Text → Text → Result (LoadError IoError ParseError) Decoder
  push_named databases name text = map_err parse (try_from text) >>= λ dbc.
      ok (databases ++ record { name = name; dbc = dbc } ∷ [])

  -- `file_name` is the last part of the path where it is Unicode, and `read` the file system.
  unfoldable pub push_file :
      {IoError Path' : Type 0}
      → (Path' → Option Text)
      → (Path' → Result IoError Text)
      → Decoder
      → Path'
      → Result (LoadError IoError ParseError) Decoder
  unfolding push_named
  push_file file_name read databases path =
      let name = Option.get_or (file_name path) (b'd' ∷ b'b' ∷ b'c' ∷ []) in
      map_err io (read path) >>= push_named databases name

  unfoldable pub extract_raw : Bytes → Signal → Result DiagnosticError ℕ
  unfolding max_bit extract_ordered
  extract_raw payload signal = do
    last ← max_bit (byte_order signal) (start_bit signal) (size signal)
    bits ← mul_usize (length payload) 8
    if leb bits last
        then (do
          expected_bits ← add_usize last 1
          err (payload_too_short (signal_name signal) expected_bits (length payload)))
        else extract_ordered (byte_order signal) payload (start_bit signal) (size signal)

  unfoldable pub signed_raw : Signal → ℕ → Result DiagnosticError ℤ
  signed_raw signal value = signed_as (value_type signal) (size signal) value

  unfoldable pub enum_text : LoadedDbc → MessageId → Signal → ℤ → Option Text
  enum_text database id signal value =
      Option.bind (value_descriptions_for_signal database.dbc id (signal_name signal))
        λ descriptions.
          Option.map description (find (λ d. eq_ℤ (description_id d) value) descriptions)

  unfoldable pub extract_signal :
      LoadedDbc → MessageId → Signal → Bytes → Result DiagnosticError (DecodedSignal F)
  extract_signal database id signal payload = do
    bits ← extract_raw payload signal
    value ← signed_raw signal bits
    ok (record {
      name = signal_name signal;
      raw = value;
      scaled = add (mul (of_int value) (factor signal)) (offset signal);
      unit = elim (unit signal) [ [] ↦ none | ◌∷◌ c cs ↦ some (unit signal) ];
      enum_text = enum_text database id signal value;
    })

  unfoldable pub signal_active : Signal → Option ℤ → Bool
  unfolding active
  signal_active signal mux_value = active (multiplexer_indicator signal) mux_value

  abbrev pub push_match :
      LoadedDbc → Option Message → List (LoadedDbc × Message) → List (LoadedDbc × Message)
  push_match database none later = later
  push_match database (some message) later = (database, message) ∷ later

  -- The databases that have a message for the frame, each with the first such message.
  unfoldable pub find_matches : Decoder → ℕ → List (LoadedDbc × Message)
  find_matches [] id = []
  find_matches (database ∷ rest) id =
      push_match database (find (λ message. raw (message_id message) == id) (messages database.dbc))
        (find_matches rest id)

  -- `extract_raw(..).ok().map(|value| value as i64)`
  unfoldable pub mux_value : LoadedDbc → MessageId → Bytes → Result DiagnosticError (Option ℤ)
  mux_value database id payload =
      elim (Option.get_or (message_multiplexor_switch database.dbc id) none) [
        | none ↦ ok none
        | some signal ↦
            ok_value (extract_raw payload signal) >>= λ value. ok (Option.map (signed 64) value)
      ]

  abbrev pub Collected : Type 0
  Collected = List (DecodedSignal F) × List Diagnostic

  -- One round of the loop over the signals, before what the later rounds push.
  abbrev pub push_result :
      Result DiagnosticError (DecodedSignal F)
      → Result DiagnosticError Collected
      → Result DiagnosticError Collected
  push_result (ok signal) later = later >>= λ c. ok (signal ∷ c.0, c.1)
  push_result (err (payload_too_short signal bits bytes)) later =
      later >>= λ c. ok (c.0, short_payload signal bits bytes ∷ c.1)
  push_result panic later = panic

  unfoldable pub decode_signals :
      LoadedDbc → MessageId → Option ℤ → Bytes → List Signal → Result DiagnosticError Collected
  decode_signals database id mux payload [] = ok ([], [])
  decode_signals database id mux payload (signal ∷ rest) =
      let later = decode_signals database id mux payload rest in
      if signal_active signal mux
      then push_result (extract_signal database id signal payload) later
      else later

  unfoldable pub decode_match :
      LoadedDbc → Message → Bytes → Result DiagnosticError (DecodeOutcome F)
  decode_match database message payload = do
    mux ← mux_value database (message_id message) payload
    collected ← decode_signals database (message_id message) mux payload (signals message)
    ok (record {
      message = some (record {
        database = database.name;
        message_name = message_name message;
        signals = collected.0;
      });
      diagnostics = collected.1;
    })

  unfoldable pub decode_matches :
      CanFrame → List (LoadedDbc × Message) → Result DiagnosticError (DecodeOutcome F)
  decode_matches frame [] = ok (record { message = none; diagnostics = no_match frame.id.raw ∷ [] })
  decode_matches frame ((database, message) ∷ []) = decode_match database message frame.payload
  decode_matches frame (first ∷ second ∷ rest) = ok (record {
    message = none;
    diagnostics = ambiguous_message frame.id.raw (map (λ m. m.0.name) (first ∷ second ∷ rest)) ∷ [];
  })

  -- `decode_frame` has no error of its own; the result is `panic` where a step panics.
  unfoldable pub decode_frame : Decoder → CanFrame → Result DiagnosticError (DecodeOutcome F)
  decode_frame databases frame =
      decode_matches frame (find_matches databases (frame_message_id frame.id))
