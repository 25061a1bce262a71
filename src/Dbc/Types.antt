-- ===== src/Dbc/Types.antt =====
-- crates/cantools-dbc/src/lib.rs: the types of the decoder, and what it uses of the crate `can_dbc`.
use cantools_rs.Prelude.{ℕ, Option, List, Result}
use cantools_rs.Prelude.Int.{ℤ}
use cantools_rs.Core.{Text}

pub data ByteOrder : Type 0 where
  little_endian big_endian : ByteOrder

pub data ValueType : Type 0 where
  signed_value unsigned_value : ValueType

pub data MultiplexIndicator : Type 0 where
  plain multiplexor : MultiplexIndicator
  multiplexed_signal : ℕ → MultiplexIndicator
  multiplexor_and_multiplexed_signal : ℕ → MultiplexIndicator

-- What the decoder uses of `can_dbc`; `F` is `f64`. `message_multiplexor_switch` gives `none` for
-- its error.
pub record CanDbc (F : Type 0) : Type 1 where
  pub Dbc : Type 0
  pub ParseError : Type 0
  pub try_from : Text → Result ParseError Dbc
  pub Message : Type 0
  pub MessageId : Type 0
  pub Signal : Type 0
  pub ValDescription : Type 0
  pub messages : Dbc → List Message
  pub message_id : Message → MessageId
  pub raw : MessageId → ℕ
  pub message_name : Message → Text
  pub signals : Message → List Signal
  pub signal_name : Signal → Text
  pub start_bit : Signal → ℕ
  pub size : Signal → ℕ
  pub byte_order : Signal → ByteOrder
  pub value_type : Signal → ValueType
  pub factor : Signal → F
  pub offset : Signal → F
  pub unit : Signal → Text
  pub multiplexer_indicator : Signal → MultiplexIndicator
  pub message_multiplexor_switch : Dbc → MessageId → Option (Option Signal)
  pub value_descriptions_for_signal : Dbc → MessageId → Text → Option (List ValDescription)
  pub description_id : ValDescription → ℤ
  pub description : ValDescription → Text

pub record DecodedSignal (F : Type 0) : Type 0 where
  pub name : Text
  pub raw : ℤ
  pub scaled : F
  pub unit : Option Text
  pub enum_text : Option Text

pub record DecodedMessage (F : Type 0) : Type 0 where
  pub database : Text
  pub message_name : Text
  pub signals : List (DecodedSignal F)

pub data Diagnostic : Type 0 where
  no_match : (id : ℕ) → Diagnostic
  ambiguous_message : (id : ℕ) (databases : List Text) → Diagnostic
  short_payload : (signal : Text) (expected_bits actual_bytes : ℕ) → Diagnostic

pub record DecodeOutcome (F : Type 0) : Type 0 where
  pub message : Option (DecodedMessage F)
  pub diagnostics : List Diagnostic

pub data LoadError (IoError ParseError : Type 0) : Type 0 where
  io : IoError → LoadError IoError ParseError
  parse : ParseError → LoadError IoError ParseError
