-- ===== src/Socketcan/IdWord.antt =====
-- The identifier word of a frame: what it is a sum of, and that it reads back.
use cantools_rs.Prelude.{
  ℕ, ◌+◌, ◌%◌, ◌^◌, ◌<◌, bit_or, Bool, true, false, ok, if◌then◌else◌, arith, ◌≡◌, ◌∙◌, ap,
}
use cantools_rs.Prelude.Bits.{bit_or_flag, bit_and_flag, bit_and_low}
use cantools_rs.Core.{CanId, CanFrame, FrameClass, data_frame, remote, error, standard, extended}
use cantools_rs.Core.Validation.{IsValidId}
use cantools_rs.Socketcan.Wire.{can_id_from_frame, class_flag, received_id, received_class}

-- The bit of a frame class in the identifier word.
abbrev pub class_weight : FrameClass → ℕ
class_weight data_frame = 0
class_weight remote = 2 ^ 30
class_weight error = 2 ^ 29

abbrev pub format_weight : Bool → ℕ
format_weight extended = if extended then 2 ^ 31 else 0

format_sum :
    (raw : ℕ) (ext : Bool)
    → raw < 2 ^ 29
    → (if ext then bit_or raw 0x8000_0000 else raw) ≡ raw + format_weight ext
format_sum raw ext h = ground (arith, bit_or_flag 31 raw (omega arith))

class_sum :
    (class : FrameClass) (raw : ℕ) (ext : Bool)
    → raw < 2 ^ 29
    → class_flag class (raw + format_weight ext) ≡ raw + format_weight ext + class_weight class
class_sum data_frame raw ext h = omega arith
class_sum remote raw true h = bit_or_flag 30 (raw + 2 ^ 31) (omega arith)
class_sum remote raw false h = bit_or_flag 30 (raw + 0) (omega arith)
class_sum error raw true h = bit_or_flag 29 (raw + 2 ^ 31) (omega arith)
class_sum error raw false h = bit_or_flag 29 (raw + 0) (omega arith)

pub small_id : (id : CanId) → IsValidId id → id.raw < 2 ^ 29
small_id id h = ground arith

pub can_id_from_frame_sum :
    (f : CanFrame)
    → IsValidId f.id
    → can_id_from_frame f ≡ f.id.raw + format_weight f.id.extended + class_weight f.class
can_id_from_frame_sum f h =
    unfold can_id_from_frame in
    ap (class_flag f.class) (format_sum f.id.raw f.id.extended (small_id f.id h))
    ∙ class_sum f.class f.id.raw f.id.extended (small_id f.id h)

pub received_class_sum :
    (class : FrameClass) (raw : ℕ) (ext : Bool)
    → raw < 2 ^ 29
    → received_class (raw + format_weight ext + class_weight class) ≡ class
received_class_sum data_frame raw ext h =
    let word : ℕ = raw + format_weight ext + 0 in
    ground (arith, bit_and_flag 29 word, bit_and_flag 30 word)
received_class_sum remote raw ext h =
    let word : ℕ = raw + format_weight ext + 2 ^ 30 in
    ground (arith, bit_and_flag 29 word, bit_and_flag 30 word)
received_class_sum error raw ext h =
    let word : ℕ = raw + format_weight ext + 2 ^ 29 in
    ground (arith, bit_and_flag 29 word, bit_and_flag 30 word)

pub class_bits : (class : FrameClass) → class_weight class % 2 ^ 29 ≡ 0
class_bits data_frame = omega arith
class_bits remote = omega arith
class_bits error = omega arith

pub class_low : (class : FrameClass) → class_weight class < 2 ^ 31
class_low data_frame = omega arith
class_low remote = omega arith
class_low error = omega arith

pub received_id_sum :
    (id : CanId) (class : FrameClass)
    → IsValidId id
    → received_id (id.raw + format_weight id.extended + class_weight class) ≡ ok id
unfolding standard extended
received_id_sum id class h =
    let word : ℕ = id.raw + format_weight id.extended + class_weight class in
    ground (
      arith,
      class_bits class,
      class_low class,
      bit_and_flag 31 word,
      bit_and_low 29 word,
      bit_and_low 11 word,
    )
