-- ===== src/Dbc/LittleEndian.antt =====
-- `extract_little_endian` reads a field of the little-endian number in the payload.
pub use cantools_rs.Prelude.Endian.{le_value}
use native.Mathlib.Nat.{
  mul-add-div_right, pow-suc, mul-le-mul_right, mod-eq_of_lt, mod-one, add-zero,
}
use cantools_rs.Prelude.{
  ℕ, zero, suc, ◌+◌, ◌-◌, ◌*◌, ◌/◌, ◌%◌, ◌^◌, ◌≤◌, ◌<◌, ◌≡◌, sym, ap, ◌∙◌, [], ◌∷◌, ok, some, Bytes,
  IsByte, All, length, get_elem?, arith, lt-cases, lt→ltb, inl, inr,
}
use cantools_rs.Prelude.Bits.{
  bit_and-one, bit_or-shl, pow-add, div-pow-add, pow_pos, mod-pow-suc, bit_shl_lt,
}
use cantools_rs.Dbc.Bits.{bit_at, shl_u64, add_usize, little_endian_loop, extract_little_endian}

-- A digit of the lowest byte.
low_digit : (b v i : ℕ) → i < 8 → (b + 256 * v) / 2 ^ i % 2 ≡ b / 2 ^ i % 2
low_digit b v i h =
    let whole : 2 ^ (7 - i) * 2 ^ i ≡ 128 =
      sym (pow-add 2 (7 - i) i) ∙ ap (λ k. 2 ^ k) {y = 7} (omega arith) in
    let parts : b + 256 * v ≡ 2 * (v * 2 ^ (7 - i)) * 2 ^ i + b =
      omega (arith, ap (λ (t : ℕ). v * t) whole) in
    rw (parts, mul-add-div_right (pow_pos i)) (omega arith)

-- A digit above it.
high_digit : (b v j : ℕ) → b < 256 → (b + 256 * v) / 2 ^ (8 + j) ≡ v / 2 ^ j
high_digit b v j h = div-pow-add (b + 256 * v) 8 j ∙ ap (λ t. t / 2 ^ j) {y = v} (omega arith)

pub bit_at_byte :
    (payload : Bytes) (i b : ℕ)
    → get_elem? payload (i / 8) ≡ some b
    → bit_at payload i ≡ ok (b / 2 ^ (i % 8) % 2)
unfolding bit_at
bit_at_byte payload i b e = rw e (ap ok (bit_and-one (b / 2 ^ (i % 8))))

pub bit_at-cons : (b : ℕ) (bs : Bytes) (j : ℕ) → bit_at (b ∷ bs) (8 + j) ≡ bit_at bs j
unfolding bit_at
bit_at-cons b bs j =
    let next : (8 + j) / 8 ≡ suc (j / 8) = omega arith in
    let same : (8 + j) % 8 ≡ j % 8 = omega arith in rw (next, same)

-- Inside the payload `bit_at` reads a binary digit of that number.
pub bit_at-le_value :
    (payload : Bytes) (i : ℕ)
    → All IsByte payload
    → i < 8 * length payload
    → bit_at payload i ≡ ok (le_value payload / 2 ^ i % 2)
bit_at-le_value [] i bytes h = absurd (omega arith)
bit_at-le_value (b ∷ bs) i (byte, bytes) h = elim (lt-cases i 8) [
  | inl low ↦
      let first : i / 8 ≡ 0 = omega arith in
      let same : i % 8 ≡ i = omega arith in
      bit_at_byte (b ∷ bs) i b (rw first) ∙ ap ok (rw same (sym (low_digit b (le_value bs) i low)))
  | inr high ↦
      let shifted : i ≡ 8 + (i - 8) = omega arith in
      rw (
        shifted,
        bit_at-cons b bs (i - 8),
        high_digit b (le_value bs) (i - 8) byte,
        bit_at-le_value bs (i - 8) bytes (omega arith),
      )
]

-- One round of the loop: a digit joins the value above its bits.
round :
    (n : ℕ) (payload : Bytes) (start offset value : ℕ)
    → All IsByte payload
    → start + offset < 8 * length payload
    → length payload < 2 ^ 60
    → offset < 64
    → value < 2 ^ offset
    → little_endian_loop (suc n) payload start offset value
      ≡ little_endian_loop n payload start
          (offset + 1)
          (value + le_value payload / 2 ^ (start + offset) % 2 * 2 ^ offset)
unfolding little_endian_loop shl_u64 add_usize
round n payload start offset value bytes inside held narrow small =
    rw
      (
        lt→ltb (start + offset) (2 ^ 64) (omega arith),
        bit_at-le_value payload (start + offset) bytes inside,
        lt→ltb offset 64 narrow,
        no_wrap,
      )
      (ap (little_endian_loop n payload start (offset + 1)) (bit_or-shl offset digit value small))
  where
    digit : ℕ
    digit = le_value payload / 2 ^ (start + offset) % 2

    no_wrap : digit * 2 ^ offset % 2 ^ 64 ≡ digit * 2 ^ offset
    no_wrap = mod-eq_of_lt (bit_shl_lt digit offset 64 (omega arith) narrow)

little_endian_loop-field :
    (n : ℕ) (payload : Bytes) (start offset value : ℕ)
    → All IsByte payload
    → start + offset + n ≤ 8 * length payload
    → length payload < 2 ^ 60
    → offset + n ≤ 64
    → value < 2 ^ offset
    → little_endian_loop n payload start offset value
      ≡ ok (value + le_value payload / 2 ^ (start + offset) % 2 ^ n * 2 ^ offset)
little_endian_loop-field zero payload start offset value bytes inside held narrow small =
    unfold little_endian_loop in ap ok (rw mod-one (omega arith))
little_endian_loop-field (suc n) payload start offset value bytes inside held narrow small =
    round n payload start offset value bytes (omega arith) held (omega arith) small
    ∙ little_endian_loop-field n payload start (offset + 1) value' bytes (omega arith) held
        (omega arith) small'
    ∙ ap ok total
  where
    field : ℕ
    field = le_value payload / 2 ^ (start + offset)

    value' : ℕ
    value' = value + field % 2 * 2 ^ offset

    grown : 2 ^ (offset + 1) ≡ 2 * 2 ^ offset
    grown = ap (λ k. 2 ^ k) {y = suc offset} (omega arith) ∙ pow-suc 2 offset ∙ omega arith

    small' : value' < 2 ^ (offset + 1)
    small' =
        omega
          (arith, grown, small, mul-le-mul_right {m = field % 2} {n = 1} (2 ^ offset) (omega arith))

    shifted : le_value payload / 2 ^ (start + (offset + 1)) ≡ field / 2
    shifted =
        ap (λ k. le_value payload / 2 ^ k) {y = start + offset + 1} (omega arith)
        ∙ div-pow-add (le_value payload) (start + offset) 1

    total :
        value' + le_value payload / 2 ^ (start + (offset + 1)) % 2 ^ n * 2 ^ (offset + 1)
        ≡ value + field % 2 ^ suc n * 2 ^ offset
    total = omega (
      arith,
      ap (λ (t : ℕ). t % 2 ^ n * 2 ^ (offset + 1)) shifted,
      ap (λ (t : ℕ). field / 2 % 2 ^ n * t) grown,
      ap (λ (t : ℕ). t * 2 ^ offset) (mod-pow-suc field n),
    )

-- A field of at most 64 bits inside a payload of fewer than 2^60 bytes is read without a panic, and is the bits from
-- `start` on of the little-endian number in the payload.
pub extract_little_endian-le_value :
    (payload : Bytes) (start len : ℕ)
    → All IsByte payload
    → start + len ≤ 8 * length payload
    → length payload < 2 ^ 60
    → len ≤ 64
    → extract_little_endian payload start len ≡ ok (le_value payload / 2 ^ start % 2 ^ len)
unfolding extract_little_endian
extract_little_endian-le_value payload start len bytes inside held narrow =
    little_endian_loop-field len payload start 0 0 bytes (omega arith) held (omega arith)
      (omega arith)
    ∙ ap ok (rw add-zero (omega arith))
