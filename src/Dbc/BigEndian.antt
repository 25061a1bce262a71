-- ===== src/Dbc/BigEndian.antt =====
-- `extract_big_endian` reads a field of the big-endian number in the payload.
use native.Mathlib.Nat.{
  mul-add-div_right, div-eq_of_lt, pow-suc, mul-le-mul_right, mod-one, add-zero, le_trans,
  pow-le-pow_right,
}
use cantools_rs.Prelude.{
  ℕ, zero, suc, ◌+◌, ◌-◌, ◌*◌, ◌/◌, ◌%◌, ◌^◌, ◌≤◌, ◌<◌, ◌≡◌, sym, ap, ◌∙◌, [], ◌∷◌, ok, Bytes,
  IsByte, All, length, arith, lt-cases, inl, inr, refl, ◌==◌, if◌then◌else◌,
}
use cantools_rs.Prelude.Bits.{shl-bit_or, pow-add, div-pow-add, pow_pos, mod-pow-suc_top}
use cantools_rs.Dbc.LittleEndian.{bit_at_byte, bit_at-cons}
use cantools_rs.Dbc.Bits.{
  bit_at, add_usize, next_bit, last_bit, big_endian_loop, extract_big_endian,
}

-- The number that a payload spells, highest byte first.
abbrev pub be_value : Bytes → ℕ
be_value [] = 0
be_value (b ∷ bs) = b * 2 ^ (8 * length bs) + be_value bs

-- How many bits stand before a bit when each byte is read from its top.
abbrev pub rank : ℕ → ℕ
rank bit = 8 * (bit / 8) + (7 - bit % 8)

-- The bit after another in that order, and the bit some places further on.
abbrev pub bit_after : ℕ → ℕ
bit_after bit = if bit % 8 == 0 then bit + 15 else bit - 1

abbrev pub bits_after : ℕ → ℕ → ℕ
bits_after zero bit = bit
bits_after (suc n) bit = bits_after n (bit_after bit)

next_bit-bit_after : (bit : ℕ) → bit + 15 < 2 ^ 64 → next_bit bit ≡ ok (bit_after bit)
unfolding next_bit add_usize
next_bit-bit_after bit small = ground arith

bit_after-le : (bit : ℕ) → bit_after bit ≤ bit + 15
bit_after-le bit = ground arith

pub bits_after-le : (n bit : ℕ) → bits_after n bit ≤ bit + 15 * n
bits_after-le zero bit = omega arith
bits_after-le (suc n) bit = omega (arith, bits_after-le n (bit_after bit), bit_after-le bit)

pub last_bit-bits_after :
    (rounds bit : ℕ) → bit + 15 * rounds < 2 ^ 64 → last_bit rounds bit ≡ ok (bits_after rounds bit)
unfolding last_bit
last_bit-bits_after zero bit small = refl
last_bit-bits_after (suc rounds) bit small =
    rw (next_bit-bit_after bit (omega arith))
      (last_bit-bits_after rounds (bit_after bit) (omega (arith, bit_after-le bit)))

rank-bit_after : (bit : ℕ) → rank (bit_after bit) ≡ rank bit + 1
rank-bit_after bit = ground arith

pub rank-bits_after : (n bit : ℕ) → rank (bits_after n bit) ≡ rank bit + n
rank-bits_after zero bit = omega arith
rank-bits_after (suc n) bit = omega (arith, rank-bits_after n (bit_after bit), rank-bit_after bit)

be_value-lt : (payload : Bytes) → All IsByte payload → be_value payload < 2 ^ (8 * length payload)
be_value-lt [] bytes = omega arith
be_value-lt (b ∷ bs) (byte, bytes) =
    let grown : 2 ^ (8 * suc (length bs)) ≡ 256 * 2 ^ (8 * length bs) =
      ap (λ k. 2 ^ k) {y = 8 + 8 * length bs} (omega arith) ∙ pow-add 2 8 (8 * length bs) in
    omega (
      arith,
      grown,
      be_value-lt bs bytes,
      mul-le-mul_right {m = b} {n = 255} (2 ^ (8 * length bs)) (omega arith),
    )

-- A digit of the highest byte, and a digit below it.
top_digit : (b v m i : ℕ) → v < 2 ^ m → (b * 2 ^ m + v) / 2 ^ (m + i) ≡ b / 2 ^ i
top_digit b v m i h =
    div-pow-add (b * 2 ^ m + v) m i
    ∙ ap (λ t. t / 2 ^ i) (mul-add-div_right (pow_pos m) b v ∙ rw (div-eq_of_lt h, add-zero))

lower_digit : (b v m w : ℕ) → w < m → (b * 2 ^ m + v) / 2 ^ w % 2 ≡ v / 2 ^ w % 2
lower_digit b v m w h =
    let split : 2 ^ m ≡ 2 * 2 ^ (m - w - 1) * 2 ^ w =
      ap (λ k. 2 ^ k) {y = suc (m - w - 1) + w} (omega arith)
      ∙ pow-add 2 (suc (m - w - 1)) w
      ∙ ap (λ t. t * 2 ^ w) (pow-suc 2 (m - w - 1) ∙ omega arith) in
    let parts : b * 2 ^ m + v ≡ 2 * (b * 2 ^ (m - w - 1)) * 2 ^ w + v =
      omega (arith, ap (λ (t : ℕ). b * t) split) in
    rw (parts, mul-add-div_right (pow_pos w)) (omega arith)

-- Inside the payload `bit_at` reads a binary digit of that number.
bit_at-be_value :
    (payload : Bytes) (i w : ℕ)
    → All IsByte payload
    → rank i + w + 1 ≡ 8 * length payload
    → bit_at payload i ≡ ok (be_value payload / 2 ^ w % 2)
bit_at-be_value [] i w bytes h = absurd (omega arith)
bit_at-be_value (b ∷ bs) i w (byte, bytes) h = elim (lt-cases i 8) [
  | inl low ↦
      let first : i / 8 ≡ 0 = omega arith in
      let place : w ≡ 8 * length bs + i % 8 = omega arith in
      bit_at_byte (b ∷ bs) i b (rw first)
      ∙ ap ok (rw (place, top_digit b (be_value bs) (8 * length bs) (i % 8) (be_value-lt bs bytes)))
  | inr high ↦
      let shifted : i ≡ 8 + (i - 8) = omega arith in
      ap (bit_at (b ∷ bs)) shifted
      ∙ bit_at-cons b bs (i - 8)
      ∙ bit_at-be_value bs (i - 8) w bytes (omega arith)
      ∙ ap ok (sym (lower_digit b (be_value bs) (8 * length bs) w (omega arith)))
]

-- One round of the loop: the value moves up by one bit, and a digit joins it below.
round :
    (n : ℕ) (payload : Bytes) (bit value w : ℕ)
    → All IsByte payload
    → rank bit + w + 1 ≡ 8 * length payload
    → length payload < 2 ^ 60
    → value < 2 ^ 63
    → big_endian_loop (suc n) payload bit value
      ≡ big_endian_loop n payload (bit_after bit) (value * 2 + be_value payload / 2 ^ w % 2)
unfolding big_endian_loop
round n payload bit value w bytes inside held small =
    rw (bit_at-be_value payload bit w bytes inside, next_bit-bit_after bit (omega arith), no_wrap)
      (ap (big_endian_loop n payload (bit_after bit)) (shl-bit_or 1 value _ (omega arith)))
  where
    no_wrap : value * 2 % 2 ^ 64 ≡ value * 2
    no_wrap = omega arith

big_endian_loop-field :
    (n k : ℕ) (payload : Bytes) (bit value w : ℕ)
    → All IsByte payload
    → rank bit + w + n ≡ 8 * length payload
    → length payload < 2 ^ 60
    → k + n ≤ 64
    → value < 2 ^ k
    → big_endian_loop n payload bit value ≡ ok (value * 2 ^ n + be_value payload / 2 ^ w % 2 ^ n)
big_endian_loop-field zero k payload bit value w bytes inside held narrow small =
    unfold big_endian_loop in ap ok (rw mod-one (omega arith))
big_endian_loop-field (suc n) k payload bit value w bytes inside held narrow small =
    round n payload bit value (w + n) bytes (omega arith) held small_enough
    ∙ big_endian_loop-field n (k + 1) payload (bit_after bit) value' w bytes
        (omega (arith, rank-bit_after bit)) held (omega arith) small'
    ∙ ap ok total
  where
    field : ℕ
    field = be_value payload / 2 ^ w

    value' : ℕ
    value' = value * 2 + be_value payload / 2 ^ (w + n) % 2

    small_enough : value < 2 ^ 63
    small_enough = le_trans small (pow-le-pow_right (omega arith) {j = 63} (omega arith))

    grown : 2 ^ (k + 1) ≡ 2 * 2 ^ k
    grown = ap (λ j. 2 ^ j) {y = suc k} (omega arith) ∙ pow-suc 2 k ∙ omega arith

    small' : value' < 2 ^ (k + 1)
    small' = omega (arith, grown, small)

    total : value' * 2 ^ n + field % 2 ^ n ≡ value * 2 ^ suc n + field % 2 ^ suc n
    total = omega (
      arith,
      ap (λ (t : ℕ). t % 2 * 2 ^ n) (div-pow-add (be_value payload) w n),
      mod-pow-suc_top field n,
      ap (λ (t : ℕ). value * t) (pow-suc 2 n),
    )

-- A field of at most 64 bits whose bits, read from the top of each byte, lie inside a payload of fewer
-- than 2^60 bytes is
-- read without a panic, and is those bits of the big-endian number in the payload.
pub extract_big_endian-be_value :
    (payload : Bytes) (start len : ℕ)
    → All IsByte payload
    → rank start + len ≤ 8 * length payload
    → length payload < 2 ^ 60
    → len ≤ 64
    → extract_big_endian payload start len
      ≡ ok (be_value payload / 2 ^ (8 * length payload - rank start - len) % 2 ^ len)
unfolding extract_big_endian
extract_big_endian-be_value payload start len bytes inside held narrow =
    big_endian_loop-field len 0 payload start 0 (8 * length payload - rank start - len) bytes
      (omega arith) held (omega arith) (omega arith)
    ∙ ap ok (omega arith)
