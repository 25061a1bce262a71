-- ===== src/Cli/Deadline.antt =====
-- The loop of a step `expect` ends.
use cantools_rs.Prelude.{
  ℕ, zero, suc, ◌+◌, ◌≤◌, ◌<◌, Bool, true, false, Option, none, some, Result, ok, err, panic, ltb,
  ◌≡◌, ◌↔◌, ap, refl, sym, arith, Bool-cases, inl, inr, ltb→lt, lt→ltb, ltb_false→le,
}
use cantools_rs.Core.{Text, CanId, CanFrame}
use cantools_rs.Cli.{timed_out, failed}
use cantools_rs.Cli.World.{World}
use cantools_rs.Cli.Expect.{same_bool, same_id, Ended, expect_loop, on_reply, Ends}

same_bool_sound : (a b : Bool) → same_bool a b ≡ true → a ≡ b
same_bool_sound true b h = sym h
same_bool_sound false true h = absurd (cc h)
same_bool_sound false false h = refl

same_id_iff : (a b : CanId) → (same_id a b ≡ true) ↔ (a ≡ b)
same_id_iff a b = ground (arith, same_bool_sound a.extended b.extended)

-- A clock that a call of `recv` moves on, and a pause by at least its length.
pub record Ticks {S E : Type 0} (world : World S E) (socket : world.Socket) : Type 0 where
  pub recv_takes : (s : S) → world.now s < world.now (world.recv socket s).1
  pub sleep_takes : (n : ℕ) (s : S) → world.now s + n ≤ world.now (world.sleep n s)

module _ {S E : Type 0} (world : World S E) (socket : world.Socket) (id : Text) (expected : CanId)
    (deadline : ℕ) (ticks : Ticks world socket) where
  -- One round, where the later rounds end from any later state.
  on_reply-Ends :
      (again : S → Option (Ended world socket id expected deadline)) (s : S)
      (answer : Result E (Option CanFrame) × S)
      → world.recv socket s ≡ answer
      → world.now s ≤ deadline
      → ((s' : S)
          → world.now s < world.now s'
          → (r : Ended world socket id expected deadline) × (again s' ≡ some r)
            × Ends world socket id expected deadline s' r)
      → (r : Ended world socket id expected deadline) × (on_reply world socket id expected deadline
            again answer
          ≡ some r)
        × Ends world socket id expected deadline s r
  on_reply-Ends again s (ok (some frame), s') e in_time later =
      elim (Bool-cases (same_id frame.id expected)) [
        | inl same ↦
            rw same (
              (ok tt, s'),
              refl,
              Ends.found frame in_time e ((same_id_iff frame.id expected).0 same),
            )
        | inr other ↦
            let (r, steps, ends) =
              later s' (omega (arith, ticks.recv_takes s, ap (λ x. world.now x.1) e)) in
            rw other (
              r,
              steps,
              Ends.passed frame in_time e
                  (λ same. cc (other, (same_id_iff frame.id expected).1 same)) ends,
            )
      ]
  on_reply-Ends again s (ok none, s') e in_time later =
      let (r, steps, ends) = later (world.sleep 10_000_000 s') (
        omega (
          arith,
          ticks.recv_takes s,
          ap (λ x. world.now x.1) e,
          ticks.sleep_takes 10_000_000 s',
        )) in
      (r, steps, Ends.idle in_time e ends)
  on_reply-Ends again s (err error, s') e in_time later =
      ((err (failed error), s'), refl, Ends.broken error in_time e)
  on_reply-Ends again s (panic, s') e in_time later = ((panic, s'), refl, Ends.panicked in_time e)

  -- Where each call of `recv` takes some time and a pause its time at least, the loop ends within two
  -- rounds more than nanoseconds are left until the deadline, from any state. It ends as `Ends` says: with
  -- success at a frame with the expected identifier before the deadline has passed, with the timeout only
  -- once it has passed, and with what `recv` failed with; every earlier round passed over a frame with
  -- another identifier, or paused for 10 milliseconds where there was none.
  pub expect_loop-Ends :
      (fuel : ℕ) (s : S)
      → deadline < fuel + world.now s
      → (r : Ended world socket id expected deadline) × (expect_loop world socket id expected
            deadline
            (suc fuel)
            s
          ≡ some r)
        × Ends world socket id expected deadline s r
  unfolding expect_loop
  expect_loop-Ends zero s enough =
      let past : deadline < world.now s = omega (arith, enough) in
      rw (lt→ltb deadline (world.now s) past) ((err (timed_out id), s), refl, Ends.late past)
  expect_loop-Ends (suc fuel) s enough = elim (Bool-cases (ltb deadline (world.now s))) [
    | inl past ↦
        rw past ((err (timed_out id), s), refl, Ends.late (ltb→lt deadline (world.now s) past))
    | inr before ↦
        let in_time : world.now s ≤ deadline = ltb_false→le deadline (world.now s) before in
        rw before (
          on_reply-Ends (expect_loop world socket id expected deadline (suc fuel)) s
            (world.recv socket s) refl in_time
            (λ s' later. expect_loop-Ends fuel s' (omega (arith, enough, later))))
  ]
