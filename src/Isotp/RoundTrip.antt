-- ===== src/Isotp/RoundTrip.antt =====
-- A receiver that ingests what `segment` made gets the payload back, with the last unit.
use cantools_rs.Prelude.{
  ℕ, zero, suc, ◌+◌, ◌-◌, ◌≤◌, ◌<◌, min, bit_and, ◌≡◌, refl, sym, ap, ◌∙◌, none, some, List, [],
  ◌∷◌, ◌++◌, ok, Bytes, length, arith, take, drop, replicate, take-append-slice, take_all,
  length-take, lt-cases, lt→leb_false, subst, inl, inr, All,
}
use cantools_rs.Isotp.{
  ProtocolDataUnit, single_frame, first_frame, consecutive_frame, slice, segment_loop,
  segment_fuelled, segment, Reassembler, Reply, ingest, ingest_all,
}
use cantools_rs.Isotp.Segment.{segment_loop_done, segment_loop_step, Fits}
use cantools_rs.Prelude.Bits.{bit_and_low}

-- The replies of a transfer of `n + 1` units that ends with `payload`.
abbrev pub completed : ℕ → Bytes → List Reply
completed n payload = replicate n (ok none) ++ ok (some payload) ∷ []

-- A receiver that has the first `offset` bytes and waits for the frame numbered `seq`.
abbrev waiting : Bytes → ℕ → ℕ → Reassembler
waiting payload offset seq = record {
  total_len = some (length payload);
  next_seq = seq;
  buffer = take offset payload;
}

module _ (payload : Bytes) (offset end seq : ℕ) (forward : offset ≤ end) where
  -- A frame that does not reach the end moves the receiver on,
  ingest_inner :
      end < length payload
      → ingest (waiting payload offset seq) (consecutive_frame seq (slice payload offset end))
        ≡ (ok none, waiting payload end (bit_and (seq + 1) 0x0f))
  unfolding ingest
  ingest_inner h =
      rw (take-append-slice offset end payload forward) (ground (arith, length-take end payload))

  -- and one that does completes the payload.
  ingest_last :
      end ≡ length payload
      → (ingest (waiting payload offset seq) (consecutive_frame seq (slice payload offset end))).0
        ≡ ok (some payload)
  unfolding ingest
  ingest_last e = rw (take-append-slice offset end payload forward) (
      ground
        (arith, length-take end payload, take_all end payload, take_all (length payload) payload))

-- What the loop makes of the rest of a payload, and what a waiting receiver does with it.
record Rest (payload : Bytes) (fuel cc offset seq : ℕ) : Type 0 where
  pdus : List ProtocolDataUnit
  returns : segment_loop fuel payload cc offset seq ≡ some pdus
  some_left : 0 < length pdus
  fits : All (Fits (cc + 1)) pdus
  received : (ingest_all (waiting payload offset seq) pdus).0 ≡ completed (length pdus - 1) payload

ingest_all-cons :
    (r : Reassembler) (pdu : ProtocolDataUnit) (rest : List ProtocolDataUnit) {reply : Reply}
    {r' : Reassembler}
    → ingest r pdu ≡ (reply, r')
    → (ingest_all r (pdu ∷ rest)).0 ≡ reply ∷ (ingest_all r' rest).0
unfolding ingest_all
ingest_all-cons r pdu rest e = rw e

completed-suc :
    (n : ℕ) (payload : Bytes)
    → 0 < n
    → completed (suc n - 1) payload ≡ ok none ∷ completed (n - 1) payload
completed-suc zero payload h = elim h [ ]
completed-suc (suc n) payload h =
    ap (λ k. completed k payload) {x = suc (suc n) - 1} {y = suc n} (omega arith)
    ∙ ap (λ k. ok none ∷ completed k payload) {x = n} {y = suc n - 1} (omega arith)

next_seq_lt : (seq : ℕ) → bit_and (seq + 1) 0x0f < 16
next_seq_lt seq = omega (arith, bit_and_low 4 (seq + 1))

module _ (payload : Bytes) (cc : ℕ) (room : 0 < cc) where
  last_round :
      (fuel offset seq : ℕ)
      → offset < length payload
      → length payload ≤ offset + cc
      → seq < 16
      → Rest payload (suc fuel) cc offset seq
  unfolding ingest_all
  last_round fuel offset seq more reach small = record {
    pdus = consecutive_frame seq (slice payload offset (length payload)) ∷ [];
    returns =
        segment_loop_step fuel payload cc offset seq more
        ∙ rw (
          to_end,
          segment_loop_done fuel payload cc (length payload) (bit_and (seq + 1) 0x0f) (omega arith),
        );
    some_left = omega arith;
    fits =
        ((small, omega (arith, length-take (length payload - offset) (drop offset payload))), tt);
    received =
        ap (λ r. r ∷ []) (ingest_last payload offset (length payload) seq (omega arith) refl);
  }
    where
      to_end : min (offset + cc) (length payload) ≡ length payload
      to_end = omega arith

  inner_round :
      (fuel offset seq : ℕ)
      → offset + cc < length payload
      → seq < 16
      → Rest payload fuel cc (offset + cc) (bit_and (seq + 1) 0x0f)
      → Rest payload (suc fuel) cc offset seq
  inner_round fuel offset seq further small rest = record {
    pdus = consecutive_frame seq (slice payload offset (offset + cc)) ∷ rest.pdus;
    returns =
        segment_loop_step fuel payload cc offset seq (omega arith) ∙ rw (to_end, rest.returns);
    some_left = omega arith;
    fits = (
      (small, omega (arith, length-take (offset + cc - offset) (drop offset payload))),
      rest.fits,
    );
    received =
        ingest_all-cons _ _ rest.pdus
          (ingest_inner payload offset (offset + cc) seq (omega arith) further)
        ∙ ap (◌∷◌ (ok none)) rest.received
        ∙ sym (completed-suc (length rest.pdus) payload rest.some_left);
  }
    where
      to_end : min (offset + cc) (length payload) ≡ offset + cc
      to_end = omega arith

  segment_loop-Rest :
      (fuel offset seq : ℕ)
      → offset < length payload
      → length payload ≤ offset + fuel
      → seq < 16
      → Rest payload fuel cc offset seq
  segment_loop-Rest zero offset seq more enough small = absurd (omega arith)
  segment_loop-Rest (suc fuel) offset seq more enough small =
      elim (lt-cases (offset + cc) (length payload)) [
        | inr reach ↦ last_round fuel offset seq more reach small
        | inl further ↦ inner_round fuel offset seq further small (
            segment_loop-Rest fuel (offset + cc) (bit_and (seq + 1) 0x0f) further (omega arith)
              (next_seq_lt seq))
      ]

-- What `segment` returns for a payload, and what a receiver in any state makes of it.
pub record Transfer (payload : Bytes) (capacity : ℕ) : Type 0 where
  pub pdus : List ProtocolDataUnit
  pub returns : segment payload capacity ≡ some pdus
  pub fits : All (Fits capacity) pdus
  pub received : (r : Reassembler) → (ingest_all r pdus).0 ≡ completed (length pdus - 1) payload

single-Transfer :
    (payload : Bytes) (capacity : ℕ) → length payload ≤ capacity - 1 → Transfer payload capacity
unfolding segment segment_fuelled ingest_all ingest
single-Transfer payload capacity h = record {
  pdus = single_frame payload ∷ [];
  returns = ground arith;
  fits = (h, tt);
  received = λ r. refl;
}

ingest_first :
    (r : Reassembler) (payload : Bytes) (end : ℕ)
    → end < length payload
    → ingest r (first_frame (length payload) (slice payload 0 end))
      ≡ (ok none, waiting payload end 1)
unfolding ingest
ingest_first r payload end h =
    let whole : end - 0 ≡ end = omega arith in rw whole (ground (arith, length-take end payload))

multi-Transfer :
    (payload : Bytes) (capacity : ℕ)
    → 2 ≤ capacity
    → capacity - 1 < length payload
    → Rest payload (length payload) (capacity - 1) (capacity - 2) 1
    → Transfer payload capacity
unfolding segment segment_fuelled
multi-Transfer payload capacity enough long rest = record {
  pdus = first_frame (length payload) (slice payload 0 (capacity - 2)) ∷ rest.pdus;
  returns = rw (lt→leb_false (length payload) (capacity - 1) long, head_end, rest.returns);
  fits = (
    omega (arith, length-take (capacity - 2 - 0) (drop 0 payload)),
    subst (λ c. All (Fits c) rest.pdus) whole rest.fits,
  );
  received = λ r.
      ingest_all-cons r _ rest.pdus (ingest_first r payload (capacity - 2) (omega arith))
      ∙ ap (◌∷◌ (ok none)) rest.received
      ∙ sym (completed-suc (length rest.pdus) payload rest.some_left);
}
  where
    head_end : min (length payload) (capacity - 2) ≡ capacity - 2
    head_end = omega arith

    whole : capacity - 1 + 1 ≡ capacity
    whole = omega arith

-- With room for two bytes in a frame `segment` returns; its units are numbered and fit the frame;
-- and a receiver in any state answers all but the last with nothing and the last with the payload.
pub segment-Transfer : (payload : Bytes) (capacity : ℕ) → 2 ≤ capacity → Transfer payload capacity
segment-Transfer payload capacity h = elim (lt-cases (capacity - 1) (length payload)) [
  | inr short ↦ single-Transfer payload capacity short
  | inl long ↦ multi-Transfer payload capacity h long (
      segment_loop-Rest payload (capacity - 1) (omega arith) (length payload) (capacity - 2) 1
        (omega arith) (omega arith) (omega arith))
]

-- For every payload and every frame capacity of at least two bytes, `segment` returns (its loop
-- ends); each unit fits the capacity, with a four-bit sequence number; and a receiver in any state
-- that ingests the units in order answers each but the last with `None` and the last with the
-- whole payload.
pub segment_reassembles :
    (payload : Bytes) (capacity : ℕ) (r : Reassembler)
    → 2 ≤ capacity
    → (pdus : List ProtocolDataUnit) × (segment payload capacity ≡ some pdus)
      × All (Fits capacity) pdus
      × ((ingest_all r pdus).0 ≡ completed (length pdus - 1) payload)
segment_reassembles payload capacity r h =
    let t = segment-Transfer payload capacity h in (t.pdus, t.returns, t.fits, t.received r)
