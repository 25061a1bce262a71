-- ===== src/Dbc/Extract.antt =====
-- `extract_raw` and `extract_signal`: which signals fit a payload, and the value of those that do.
use native.Mathlib.Nat.{mod-lt}
use cantools_rs.Prelude.{
  ℕ, ◌+◌, ◌-◌, ◌*◌, ◌/◌, ◌%◌, ◌^◌, ◌≤◌, ◌<◌, ◌≡◌, refl, Bool, not, ok, err, Bytes, IsByte, All,
  length, lt→ltb, le→ltb_false, panic, ◌∙◌, leb, if◌then◌else◌, arith, Bool-cases, none, some, [],
  ◌∷◌, leb→le, inl, inr,
}
use cantools_rs.Prelude.Bits.{pow_pos}
use cantools_rs.Prelude.Int.{ℤ, signed}
use cantools_rs.Prelude.Float.{Float}
use cantools_rs.Dbc.Bits.{DiagnosticError, payload_too_short, add_usize, mul_usize}
use cantools_rs.Dbc.LittleEndian.{le_value, extract_little_endian-le_value}
use cantools_rs.Dbc.BigEndian.{
  be_value, rank, bits_after, bits_after-le, last_bit-bits_after, rank-bits_after,
  extract_big_endian-be_value,
}
use cantools_rs.Dbc.SignExtend.{sign_extend-signed}
use cantools_rs.Dbc.Decoder.{
  ByteOrder, little_endian, big_endian, ValueType, signed_value, unsigned_value, CanDbc, LoadedDbc,
  DecodedSignal, max_bit, extract_ordered, extract_raw, signed_raw, signed_as, enum_text,
  extract_signal,
}

-- The number of leading bits of a payload that hold a field: a little-endian field is counted from
-- the bottom of the first byte, a big-endian one from its top.
abbrev pub span : ByteOrder → ℕ → ℕ → ℕ
span little_endian start len = start + len
span big_endian start len = rank start + len

-- The field, as bits of the number that the payload spells in its byte order.
abbrev pub field : ByteOrder → Bytes → ℕ → ℕ → ℕ
field little_endian payload start len = le_value payload / 2 ^ start % 2 ^ len
field big_endian payload start len =
    be_value payload / 2 ^ (8 * length payload - rank start - len) % 2 ^ len

field-lt :
    (order : ByteOrder) (payload : Bytes) (start len : ℕ) → field order payload start len < 2 ^ len
field-lt little_endian payload start len = mod-lt _ (pow_pos len)
field-lt big_endian payload start len = mod-lt _ (pow_pos len)

-- The highest bit of a little-endian field, and the last one of a big-endian field.
abbrev pub last_place : ByteOrder → ℕ → ℕ → ℕ
last_place little_endian start len = start + (len - 1)
last_place big_endian start len = bits_after (len - 1) start

last_place-le :
    (order : ByteOrder) (start len : ℕ) → len ≤ 64 → last_place order start len ≤ start + 945
last_place-le little_endian start len narrow = omega arith
last_place-le big_endian start len narrow = omega (arith, bits_after-le (len - 1) start)

-- No sum of `max_bit` overflows for a field that starts below the bit 2^63.
max_bit-last_place :
    (order : ByteOrder) (start len : ℕ)
    → len ≤ 64
    → start < 2 ^ 63
    → max_bit order start len ≡ ok (last_place order start len)
unfolding max_bit add_usize
max_bit-last_place little_endian start len narrow low = ground arith
max_bit-last_place big_endian start len narrow low =
    last_bit-bits_after (len - 1) start (omega arith)

-- The guard of `extract_raw` tests the span.
last_place-span :
    (order : ByteOrder) (start len bytes : ℕ)
    → 0 < len
    → leb (bytes * 8) (last_place order start len) ≡ not (leb (span order start len) (8 * bytes))
last_place-span little_endian start len bytes pos = ground arith
last_place-span big_endian start len bytes pos = ground (arith, rank-bits_after (len - 1) start)

-- Bytes, fewer than 2^60 of them.
abbrev pub IsPayload : Bytes → Type 0
IsPayload payload = All IsByte payload × (length payload < 2 ^ 60)

extract_ordered-field :
    (order : ByteOrder) (payload : Bytes) (start len : ℕ)
    → IsPayload payload
    → span order start len ≤ 8 * length payload
    → len ≤ 64
    → extract_ordered order payload start len ≡ ok (field order payload start len)
unfolding extract_ordered
extract_ordered-field little_endian payload start len (bytes, held) inside narrow =
    extract_little_endian-le_value payload start len bytes inside held narrow
extract_ordered-field big_endian payload start len (bytes, held) inside narrow =
    extract_big_endian-be_value payload start len bytes inside held narrow

-- The value of a field, by the signal's type: `raw as i64` of an unsigned field reads the 64 bits as a
-- signed number, so an unsigned field of 64 bits with its top bit set is negative.
abbrev pub value_as : ValueType → ℕ → ℕ → ℤ
value_as signed_value size bits = signed size bits
value_as unsigned_value size bits = signed 64 bits

signed_as-value_as :
    (type : ValueType) (size bits : ℕ)
    → 0 < size
    → size ≤ 64
    → bits < 2 ^ size
    → signed_as type size bits ≡ ok (value_as type size bits)
unfolding signed_as
signed_as-value_as signed_value size bits some_bits narrow small =
    let same : size % 2 ^ 32 ≡ size = omega arith in
    rw same (sign_extend-signed bits size some_bits narrow small)
signed_as-value_as unsigned_value size bits some_bits narrow small = refl

module _ (f64 : Float) (can_dbc : CanDbc f64.F) where
  open can_dbc use {
    Signal, MessageId, signal_name, start_bit, size, byte_order, value_type, factor, offset, unit,
  }

  -- A size that a 64-bit extraction can hold, and a start at which no sum of bits overflows.
  abbrev pub IsExtractable : Signal → Type 0
  IsExtractable signal = (0 < size signal) × (size signal ≤ 64) × (start_bit signal < 2 ^ 63)

  abbrev pub fits : Bytes → Signal → Bool
  fits payload signal =
      leb (span (byte_order signal) (start_bit signal) (size signal)) (8 * length payload)

  abbrev pub field_of : Bytes → Signal → ℕ
  field_of payload signal = field (byte_order signal) payload (start_bit signal) (size signal)

  abbrev pub too_short : Bytes → Signal → DiagnosticError
  too_short payload signal =
      payload_too_short (signal_name signal)
        (last_place (byte_order signal) (start_bit signal) (size signal) + 1) (length payload)

  -- The tests before the extraction, for such a signal.
  guarded :
      (payload : Bytes) (signal : Signal)
      → length payload < 2 ^ 60
      → IsExtractable signal
      → extract_raw f64 can_dbc payload signal ≡ (
          if fits payload signal
          then extract_ordered (byte_order signal) payload (start_bit signal) (size signal)
          else err (too_short payload signal))
  unfolding extract_raw mul_usize add_usize
  guarded payload signal held (some_bits, narrow, low) =
      let last = last_place (byte_order signal) (start_bit signal) (size signal) in
      let near : last ≤ start_bit signal + 945 =
        last_place-le (byte_order signal) (start_bit signal) (size signal) narrow in
      rw
        (
          max_bit-last_place (byte_order signal) (start_bit signal) (size signal) narrow low,
          lt→ltb (length payload * 8) (2 ^ 64) (omega arith),
          last_place-span (byte_order signal) (start_bit signal) (size signal) (length payload)
              some_bits,
          lt→ltb (last + 1) (2 ^ 64) (omega arith),
        )
        (elim (Bool-cases (fits payload signal)) [
          | inl inside ↦ rw inside refl
          | inr outside ↦ rw outside refl
        ])

  -- For a signal of 1 to 64 bits that starts below the bit 2^63, and a payload of fewer than 2^60
  -- bytes, `extract_raw` never panics: it returns the field of the number that the payload spells in
  -- the signal's byte order where the field lies inside the payload, and otherwise the diagnostic,
  -- which carries the signal's name, the place of its last bit plus one, and the payload's length.
  pub extract_raw-field :
      (payload : Bytes) (signal : Signal)
      → IsPayload payload
      → IsExtractable signal
      → extract_raw f64 can_dbc payload signal ≡ (
          if fits payload signal
          then ok (field_of payload signal)
          else err (too_short payload signal))
  extract_raw-field payload signal (bytes, held) (some_bits, narrow, low) =
      guarded payload signal held (some_bits, narrow, low)
      ∙ elim (Bool-cases (fits payload signal)) [
        | inl inside ↦ rw inside (
            extract_ordered-field (byte_order signal) payload (start_bit signal) (size signal)
              (bytes, held) (leb→le _ _ inside) narrow)
        | inr outside ↦ rw outside refl
      ]

  -- Where the highest bit of a little-endian signal has no place in 64 bits, `extract_raw` panics.
  pub extract_raw_overflow :
      (payload : Bytes) (signal : Signal)
      → byte_order signal ≡ little_endian
      → 2 ^ 64 ≤ start_bit signal + (size signal - 1)
      → extract_raw f64 can_dbc payload signal ≡ panic
  unfolding extract_raw max_bit add_usize
  extract_raw_overflow payload signal little far =
      rw (little, le→ltb_false (start_bit signal + (size signal - 1)) (2 ^ 64) far) refl

  abbrev pub value_of : Bytes → Signal → ℤ
  value_of payload signal = value_as (value_type signal) (size signal) (field_of payload signal)

  -- What `extract_signal` returns for a signal that fits.
  abbrev pub reading : LoadedDbc f64 can_dbc → MessageId → Bytes → Signal → DecodedSignal f64.F
  reading database id payload signal =
      let value = value_of payload signal in
      record {
        name = signal_name signal;
        raw = value;
        scaled = f64.add (f64.mul (f64.of_int value) (factor signal)) (offset signal);
        unit = elim (unit signal) [ [] ↦ none | ◌∷◌ c cs ↦ some (unit signal) ];
        enum_text = enum_text f64 can_dbc database id signal value;
      }

  -- For a signal of 1 to 64 bits that starts below the bit 2^63, and a payload of fewer than 2^60
  -- bytes, `extract_signal` never panics: where the field lies inside the payload it returns the signal
  -- with the field's value, scaled by the factor and offset; elsewhere it returns the diagnostic. A
  -- signed field is read in two's complement of the signal's size. An unsigned field is read as a
  -- signed number of 64 bits: it is the field itself below 2^63, but a field of 64 bits whose top bit
  -- is set comes out negative, by 2^64 too low.
  pub extract_signal-reading :
      (database : LoadedDbc f64 can_dbc) (id : MessageId) (payload : Bytes) (signal : Signal)
      → IsPayload payload
      → IsExtractable signal
      → extract_signal f64 can_dbc database id signal payload ≡ (
          if fits payload signal
          then ok (reading database id payload signal)
          else err (too_short payload signal))
  unfolding extract_signal signed_raw
  extract_signal-reading database id payload signal bytes sized =
      elim (Bool-cases (fits payload signal)) [
        | inl inside ↦ rw (
          extract_raw-field payload signal bytes sized,
          inside,
          signed_as-value_as (value_type signal) (size signal) (field_of payload signal) sized.0
              sized.1 (field-lt (byte_order signal) payload (start_bit signal) (size signal)),
        )
        | inr outside ↦ rw (extract_raw-field payload signal bytes sized, outside)
      ]
