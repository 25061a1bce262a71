-- ===== src/Codec.antt =====
-- crates/cantools-codec/src/lib.rs: what the readers and writers of capture files share. A formatted
-- text is the list of its pieces.
pub mod Blf
pub mod Mf4
pub mod Asc
pub mod Format
use Prim.Native.String.{String}
use cantools_rs.Prelude.{ℕ, Option, List}
use cantools_rs.Core.{Text, CoreError, CaptureEvent}

-- A piece of a formatted text: what the format string says, or an argument.
pub data Piece : Type 0 where
  lit : String → Piece
  arg : Text → Piece

pub record FidelityNote : Type 0 where
  pub event_index : Option ℕ
  pub field : String
  pub detail : List Piece

pub record ReadReport : Type 0 where
  pub events : List CaptureEvent
  pub notes : List FidelityNote

pub record WriteReport : Type 0 where
  pub notes : List FidelityNote

pub data CodecError (IoError : Type 0) : Type 0 where
  io : IoError → CodecError IoError
  parse : (text : List Piece) → CodecError IoError
  unknown_format : (path : Text) → CodecError IoError
  core : CoreError → CodecError IoError
