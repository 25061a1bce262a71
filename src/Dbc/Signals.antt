-- ===== src/Dbc/Signals.antt =====
-- The loop of `decode_frame` over the signals of one message, and its multiplexor.
use mathlib.Core.Option
use cantools_rs.Prelude.{
  ◌+◌, ◌≡◌, refl, ◌&&◌, not, Option, none, some, Result, ok_value, ◌>>=◌, ok, Bytes, All, List, [],
  ◌∷◌, map, length, filter_by, if◌then◌else◌, Bool-cases, inl, inr,
}
use cantools_rs.Prelude.Int.{ℤ, signed}
use cantools_rs.Prelude.Float.{Float}
use cantools_rs.Dbc.Bits.{DiagnosticError}
use cantools_rs.Dbc.Decoder.{
  CanDbc, LoadedDbc, Diagnostic, short_payload, signal_active, extract_raw, mux_value,
  decode_signals,
}
use cantools_rs.Dbc.Extract.{
  IsExtractable, IsPayload, last_place, fits, field_of, reading, extract_raw-field,
  extract_signal-reading,
}

module _ (f64 : Float) (can_dbc : CanDbc f64.F) where
  open can_dbc use {
    Dbc, Message, MessageId, Signal, messages, message_id, message_name, raw, signals, signal_name,
    start_bit, size, byte_order, message_multiplexor_switch,
  }

  abbrev pub LoadedDb : Type 0
  LoadedDb = LoadedDbc f64 can_dbc

  abbrev pub kept : Option ℤ → Bytes → List Signal → List Signal
  kept mux payload = filter_by λ s. signal_active f64 can_dbc s mux && fits f64 can_dbc payload s

  abbrev pub dropped : Option ℤ → Bytes → List Signal → List Signal
  dropped mux payload =
      filter_by λ s. signal_active f64 can_dbc s mux && not (fits f64 can_dbc payload s)

  abbrev pub short : Bytes → Signal → Diagnostic
  short payload s =
      short_payload (signal_name s) (last_place (byte_order s) (start_bit s) (size s) + 1)
        (length payload)

  -- For a payload of fewer than 2^60 bytes and signals of 1 to 64 bits that start below the bit 2^63,
  -- the loop over the signals does not panic: every active signal that fits the payload is decoded, in the order of the message, every other
  -- active signal has its diagnostic, and the rest leave nothing.
  pub decode_signals_partition :
      (database : LoadedDb) (id : MessageId) (mux : Option ℤ) (payload : Bytes) (list : List Signal)
      → IsPayload payload
      → All (IsExtractable f64 can_dbc) list
      → decode_signals f64 can_dbc database id mux payload list
        ≡ ok (
          map (reading f64 can_dbc database id payload) (kept mux payload list),
          map (short payload) (dropped mux payload list),
        )
  unfolding decode_signals
  decode_signals_partition database id mux payload [] bytes sized = refl
  decode_signals_partition database id mux payload (s ∷ rest) bytes (head, sized) =
      elim (Bool-cases (signal_active f64 can_dbc s mux)) [
        | inr off ↦ rw (off, decode_signals_partition database id mux payload rest bytes sized)
        | inl on ↦ elim (Bool-cases (fits f64 can_dbc payload s)) [
          | inl inside ↦ rw (
            on,
            extract_signal-reading f64 can_dbc database id payload s bytes head,
            inside,
            decode_signals_partition database id mux payload rest bytes sized,
          )
          | inr outside ↦ rw (
            on,
            extract_signal-reading f64 can_dbc database id payload s bytes head,
            outside,
            decode_signals_partition database id mux payload rest bytes sized,
          )
        ]
      ]

  -- The value of the message's multiplexor, where it has one that fits the payload.
  abbrev pub mux_of : LoadedDb → MessageId → Bytes → Option ℤ
  mux_of database id payload =
      Option.bind (Option.get_or (message_multiplexor_switch database.dbc id) none) λ s.
        if fits f64 can_dbc payload s
        then some (signed 64 (field_of f64 can_dbc payload s))
        else none

  -- What `can_dbc` must give for the bit extraction to be defined: signals of 1 to 64 bits that start
  -- below the bit 2^63.
  abbrev pub SwitchExtractable : Option Signal → Type 0
  SwitchExtractable none = Unit {0}
  SwitchExtractable (some s) = IsExtractable f64 can_dbc s

  pub record MessageExtractable (database : LoadedDb) (message : Message) : Type 0 where
    pub all_sized : All (IsExtractable f64 can_dbc) (signals message)
    pub switch_sized :
        SwitchExtractable
          (Option.get_or (message_multiplexor_switch database.dbc (message_id message)) none)

  switch_value :
      (switch : Option Signal) (payload : Bytes)
      → IsPayload payload
      → SwitchExtractable switch
      → ◌≡◌ {A = Result DiagnosticError (Option ℤ)}
          (elim switch [
            | none ↦ ok none
            | some s ↦
                ok_value (extract_raw f64 can_dbc payload s) >>= λ v. ok (Option.map (signed 64) v)
          ])
          (ok (
            Option.bind switch λ s.
              if fits f64 can_dbc payload s
              then some (signed 64 (field_of f64 can_dbc payload s))
              else none))
  unfolding Option.bind
  switch_value none payload bytes sized = refl
  switch_value (some s) payload bytes sized = elim (Bool-cases (fits f64 can_dbc payload s)) [
    | inl inside ↦ rw (extract_raw-field f64 can_dbc payload s bytes sized, inside)
    | inr outside ↦ rw (extract_raw-field f64 can_dbc payload s bytes sized, outside)
  ]

  pub mux_value-mux_of :
      (database : LoadedDb) (message : Message) (payload : Bytes)
      → IsPayload payload
      → MessageExtractable database message
      → mux_value f64 can_dbc database (message_id message) payload
        ≡ ok (mux_of database (message_id message) payload)
  unfolding mux_value
  mux_value-mux_of database message payload bytes sized =
      switch_value _ payload bytes sized.switch_sized
