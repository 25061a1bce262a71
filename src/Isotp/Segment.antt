-- ===== src/Isotp/Segment.antt =====
-- The loop of `segment`: it ends when a consecutive frame carries a byte at least, and only then.
use mathlib.Core.Option
use cantools_rs.Prelude.{
  ℕ, zero, suc, ◌+◌, ◌-◌, ◌≤◌, ◌<◌, min, bit_and, ◌≡◌, refl, ◌∙◌, ◌≢◌, none, some, [], ◌∷◌, Bytes,
  length, arith, lt→leb_false,
}
use cantools_rs.Isotp.{
  ProtocolDataUnit, single_frame, first_frame, consecutive_frame, flow_control, slice, segment_loop,
  segment_fuelled,
}

-- Past the end of the payload the loop stops, whatever the fuel.
pub segment_loop_done :
    (fuel : ℕ) (payload : Bytes) (cc offset seq : ℕ)
    → length payload ≤ offset
    → segment_loop fuel payload cc offset seq ≡ some []
unfolding segment_loop
segment_loop_done zero payload cc offset seq h = ground arith
segment_loop_done (suc fuel) payload cc offset seq h = ground arith

-- Before the end it makes a round.
pub segment_loop_step :
    (fuel : ℕ) (payload : Bytes) (cc offset seq : ℕ)
    → offset < length payload
    → let end = min (offset + cc) (length payload) in
      segment_loop (suc fuel) payload cc offset seq
      ≡ Option.map
          (◌∷◌ (consecutive_frame seq (slice payload offset end)))
          (segment_loop fuel payload cc end (bit_and (seq + 1) 0x0f))
unfolding segment_loop
segment_loop_step fuel payload cc offset seq h = ground arith

-- With no room in a consecutive frame the offset stays, and no fuel is enough.
segment_loop_stuck :
    (fuel : ℕ) (payload : Bytes) (offset seq : ℕ)
    → offset < length payload
    → segment_loop fuel payload 0 offset seq ≡ none
segment_loop_stuck zero payload offset seq h = unfold segment_loop in ground arith
segment_loop_stuck (suc fuel) payload offset seq h =
    let stays : min (offset + 0) (length payload) ≡ offset = omega arith in
    segment_loop_step fuel payload 0 offset seq h
    ∙ rw (stays, segment_loop_stuck fuel payload offset (bit_and (seq + 1) 0x0f) h)

-- With a frame capacity of at most one byte, `segment` loops forever on every payload that is not
-- empty: no amount of fuel lets it return.
pub segment_diverges :
    (fuel : ℕ) (payload : Bytes) (capacity : ℕ)
    → capacity ≤ 1
    → payload ≢ []
    → segment_fuelled fuel payload capacity ≡ none
segment_diverges fuel [] capacity h ne = absurd (ne refl)
segment_diverges fuel (b ∷ bs) capacity h ne =
    let no_room : capacity - 1 ≡ 0 = omega arith in
    let no_head : min (length (b ∷ bs)) (capacity - 2) ≡ 0 = omega arith in
    unfold segment_fuelled in
    rw (
      no_room,
      lt→leb_false (length (b ∷ bs)) 0 (omega arith),
      no_head,
      segment_loop_stuck fuel (b ∷ bs) 0 1 (omega arith),
    )

-- What the loop pushes: numbered consecutive frames, each within the capacity.
abbrev pub Fits : ℕ → ProtocolDataUnit → Type 0
Fits capacity (single_frame payload) = length payload ≤ capacity - 1
Fits capacity (first_frame total_len payload) = length payload ≤ capacity - 2
Fits capacity (consecutive_frame seq payload) = (seq < 16) × (length payload ≤ capacity - 1)
Fits capacity (flow_control status block_size separation_time_ms) = Unit {0}
