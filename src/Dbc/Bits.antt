-- ===== src/Dbc/Bits.antt =====
-- crates/cantools-dbc/src/lib.rs: the bit-level functions. A sum or product above 64 bits, a shift by
-- the width or more and a subtraction below zero panic, as in a build with overflow checks; `usize`
-- and `u64` have 64 bits.
use cantools_rs.Prelude.{
  ℕ, zero, suc, ◌+◌, ◌-◌, ◌*◌, ◌/◌, ◌%◌, ◌^◌, bit_and, bit_or, Result, ok, panic, or_panic, ◌>>=◌,
  Bytes, get_elem?, ltb, ◌==◌, ◌||◌, if◌then◌else◌,
}
use cantools_rs.Prelude.Int.{ℤ, pos, negsuc, signed}
use cantools_rs.Core.{Text}

-- `enum DiagnosticError`
pub data DiagnosticError : Type 0 where
  payload_too_short : (signal : Text) (expected_bits actual_bytes : ℕ) → DiagnosticError

-- `+` and `*` of `usize`.
abbrev pub in_usize : ℕ → Result DiagnosticError ℕ
in_usize n = if ltb n (2 ^ 64) then ok n else panic

unfoldable pub add_usize : ℕ → ℕ → Result DiagnosticError ℕ
add_usize a b = in_usize (a + b)

unfoldable pub mul_usize : ℕ → ℕ → Result DiagnosticError ℕ
mul_usize a b = in_usize (a * b)

-- The order of bits inside a payload: from the top of each byte down, and on to the next byte.
unfoldable pub next_bit : ℕ → Result DiagnosticError ℕ
unfolding add_usize
next_bit bit = if bit % 8 == 0 then add_usize bit 15 else ok (bit - 1)

-- `for _ in 1..length`, with the rounds left.
unfoldable pub last_bit : ℕ → ℕ → Result DiagnosticError ℕ
unfolding next_bit
last_bit zero bit = ok bit
last_bit (suc rounds) bit = do next ← next_bit bit; last_bit rounds next

-- `payload[bit / 8]` panics past the end.
unfoldable pub bit_at : Bytes → ℕ → Result DiagnosticError ℕ
bit_at payload bit = do
  byte ← or_panic (get_elem? payload (bit / 8))
  ok (bit_and (byte / 2 ^ (bit % 8)) 1)

-- `x << k` on a `u64`.
unfoldable pub shl_u64 : ℕ → ℕ → Result DiagnosticError ℕ
shl_u64 x k = if ltb k 64 then ok (x * 2 ^ k % 2 ^ 64) else panic

unfoldable pub little_endian_loop : ℕ → Bytes → ℕ → ℕ → ℕ → Result DiagnosticError ℕ
unfolding bit_at shl_u64 add_usize
little_endian_loop zero payload start offset value = ok value
little_endian_loop (suc rounds) payload start offset value = do
  place ← add_usize start offset
  bit ← bit_at payload place
  shifted ← shl_u64 bit offset
  little_endian_loop rounds payload start (offset + 1) (bit_or value shifted)

unfoldable pub extract_little_endian : Bytes → ℕ → ℕ → Result DiagnosticError ℕ
unfolding little_endian_loop
extract_little_endian payload start len = little_endian_loop len payload start 0 0

unfoldable pub big_endian_loop : ℕ → Bytes → ℕ → ℕ → Result DiagnosticError ℕ
unfolding bit_at next_bit
big_endian_loop zero payload bit value = ok value
big_endian_loop (suc rounds) payload bit value = do
  next ← bit_at payload bit
  later ← next_bit bit
  big_endian_loop rounds payload later (bit_or (value * 2 % 2 ^ 64) next)

unfoldable pub extract_big_endian : Bytes → ℕ → ℕ → Result DiagnosticError ℕ
unfolding big_endian_loop
extract_big_endian payload start len = big_endian_loop len payload start 0

-- `>>` of an `i64` rounds down.
abbrev pub asr : ℤ → ℕ → ℤ
asr (pos n) k = pos (n / 2 ^ k)
asr (negsuc n) k = negsuc (n / 2 ^ k)

-- `64 - width` underflows above 64, and a shift by 64 overflows.
unfoldable pub sign_extend : ℕ → ℕ → Result DiagnosticError ℤ
sign_extend raw width =
    if ltb 64 width || width == 0
    then panic
    else ok (asr (signed 64 (raw * 2 ^ (64 - width) % 2 ^ 64)) (64 - width))
