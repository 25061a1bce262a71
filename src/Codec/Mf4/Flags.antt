-- ===== src/Codec/Mf4/Flags.antt =====
-- The flag word of a record: each flag is a bit of it.
use cantools_rs.Prelude.{
  ℕ, suc, ◌+◌, ◌*◌, ◌/◌, ◌%◌, ◌^◌, ◌≤◌, ◌<◌, bit_or, bit_and, Bool, true, false, ◌≡◌, refl, ap,
  if◌then◌else◌, arith,
}
use native.Mathlib.Nat.{pow-suc}
use cantools_rs.Prelude.Bits.{bit_or-zero, bit_set, bit_and_flag, bit_or-shl, pow_pos}
use cantools_rs.Core.{CaptureEvent, FrameClass, data_frame, remote, error}
use cantools_rs.Codec.Blf.{flag_if, is_tx}
use cantools_rs.Codec.Mf4.{is_remote, is_error, record_flags, record_class}

abbrev pub bit : Bool → ℕ
bit b = if b then 1 else 0

bit-le : (b : Bool) → bit b ≤ 1
bit-le b = ground arith

-- A flag above all others is added, and the word keeps to its bits.
add_flag :
    (k : ℕ) {a v : ℕ} (b : Bool)
    → (a ≡ v) × (v < 2 ^ k)
    → (bit_or a (flag_if b (2 ^ k)) ≡ v + bit b * 2 ^ k) × (v + bit b * 2 ^ k < 2 ^ suc k)
add_flag k {a} {v} true (e, h) =
    let same : bit_or a (1 * 2 ^ k) ≡ bit_or a (flag_if true (2 ^ k)) =
      ap (bit_or a) {x = 1 * 2 ^ k} {y = 2 ^ k} (omega arith) in
    (omega (arith, e, same, bit_or-shl k 1 a (rw e h)), omega (arith, h, pow-suc 2 k))
add_flag k {a} {v} false (e, h) =
    (omega (arith, e, bit_or-zero a), omega (arith, h, pow-suc 2 k, pow_pos k))

-- The word, from the flags and the class as numbers of at most one.
record_flags_sum :
    (event : CaptureEvent)
    → let frame = event.frame in
      record_flags event
      ≡ bit (is_tx event.direction)
        + 2 * bit (is_remote frame.class)
        + 4 * bit (is_error frame.class)
        + 8 * bit frame.fd
        + 16 * bit frame.fd_flags.bit_rate_switch
        + 32 * bit frame.fd_flags.error_state_indicator
        + 64 * bit frame.id.extended
unfolding record_flags
record_flags_sum event =
    let frame = event.frame in
    let d : Bool = is_tx event.direction in
    let direction : (flag_if d 1 ≡ bit d) × (bit d < 2 ^ 1) = (refl, omega (arith, bit-le d)) in
    let remote' = add_flag 1 (is_remote frame.class) direction in
    let error' = add_flag 2 (is_error frame.class) remote' in
    let fd = add_flag 3 frame.fd error' in
    let brs = add_flag 4 frame.fd_flags.bit_rate_switch fd in
    let esi = add_flag 5 frame.fd_flags.error_state_indicator brs in
    let all = add_flag 6 frame.id.extended esi in omega (arith, all.0)

pub digit_set : (j w : ℕ) (b : Bool) → w / 2 ^ j % 2 ≡ bit b → bit_set w (2 ^ j) ≡ b
digit_set j w b h =
    let masked : bit_and w (2 ^ j) ≡ bit b * 2 ^ j = rw (bit_and_flag j w, h) refl in
    ground (arith, masked, pow_pos j)

-- Each flag is read back from the word, and with them the class.
pub record Reads (event : CaptureEvent) (w : ℕ) : Type 0 where
  pub same_direction : bit_set w 0x01 ≡ is_tx event.direction
  pub same_remote : bit_set w 0x02 ≡ is_remote event.frame.class
  pub same_error : bit_set w 0x04 ≡ is_error event.frame.class
  pub same_fd : bit_set w 0x08 ≡ event.frame.fd
  pub same_brs : bit_set w 0x10 ≡ event.frame.fd_flags.bit_rate_switch
  pub same_esi : bit_set w 0x20 ≡ event.frame.fd_flags.error_state_indicator
  pub same_format : bit_set w 0x40 ≡ event.frame.id.extended

pub record_flags-Reads : (event : CaptureEvent) → Reads event (record_flags event)
record_flags-Reads event =
    let frame = event.frame in
    let w : ℕ = record_flags event in
    let sum = record_flags_sum event in
    let d_le : bit (is_tx event.direction) ≤ 1 = bit-le (is_tx event.direction) in
    let r_le : bit (is_remote frame.class) ≤ 1 = bit-le (is_remote frame.class) in
    let e_le : bit (is_error frame.class) ≤ 1 = bit-le (is_error frame.class) in
    let f_le : bit frame.fd ≤ 1 = bit-le frame.fd in
    let b_le : bit frame.fd_flags.bit_rate_switch ≤ 1 = bit-le frame.fd_flags.bit_rate_switch in
    let s_le : bit frame.fd_flags.error_state_indicator ≤ 1 =
      bit-le frame.fd_flags.error_state_indicator in
    let x_le : bit frame.id.extended ≤ 1 = bit-le frame.id.extended in
    record {
      same_direction = digit_set 0 w (is_tx event.direction) (omega (arith, sum));
      same_remote = digit_set 1 w (is_remote frame.class) (omega (arith, sum));
      same_error = digit_set 2 w (is_error frame.class) (omega (arith, sum));
      same_fd = digit_set 3 w frame.fd (omega (arith, sum));
      same_brs = digit_set 4 w frame.fd_flags.bit_rate_switch (omega (arith, sum));
      same_esi = digit_set 5 w frame.fd_flags.error_state_indicator (omega (arith, sum));
      same_format = digit_set 6 w frame.id.extended (omega (arith, sum));
    }

pub record_class-Reads :
    (event : CaptureEvent) (w : ℕ) → Reads event w → record_class w ≡ event.frame.class
record_class-Reads event w reads =
    rw (reads.same_error, reads.same_remote) (by_class event.frame.class)
  where
    by_class :
        (class : FrameClass)
        → (if is_error class then error else if is_remote class then remote else data_frame) ≡ class
    by_class data_frame = refl
    by_class remote = refl
    by_class error = refl

pub record_flags-lt : (event : CaptureEvent) → record_flags event < 256 ^ 2
record_flags-lt event =
    let frame = event.frame in
    omega (
      arith,
      record_flags_sum event,
      bit-le (is_tx event.direction),
      bit-le (is_remote frame.class),
      bit-le (is_error frame.class),
      bit-le frame.fd,
      bit-le frame.fd_flags.bit_rate_switch,
      bit-le frame.fd_flags.error_state_indicator,
      bit-le frame.id.extended,
    )
