-- ===== src/Cli/Schedule.antt =====
-- When `replay` sends the frames of a capture.
use cantools_rs.Prelude.{
  ℕ, ◌+◌, ◌-◌, ◌*◌, ◌≤◌, ◌<◌, ◌^◌, List, [], ◌∷◌, ◌++◌, some, none, ok, ◌≡◌, refl, ◌∙◌, sym, ap,
  arith, append_assoc, append-nil,
}
use cantools_rs.Prelude.Int.{neg_part, pos_part}
use cantools_rs.Core.{Timestamp, CanFrame, CaptureEvent, preserve}
use cantools_rs.Cli.World.{World}
use cantools_rs.Cli.Replay.{delta_ns, pause, replay}

abbrev pub since_epoch : Timestamp → ℕ
since_epoch t = pos_part t.seconds * 1_000_000_000 + t.nanos

-- The events follow a time in order, none before the epoch, and with less than 2^64 nanoseconds from
-- each to the next.
abbrev pub Follow : Timestamp → List CaptureEvent → Type 0
Follow previous [] = Unit {0}
Follow previous (event ∷ rest) =
    (neg_part event.timestamp.seconds ≡ 0)
    × (since_epoch previous ≤ since_epoch event.timestamp)
    × (since_epoch event.timestamp - since_epoch previous < 2 ^ 64)
    × Follow event.timestamp rest

-- A socket that takes every frame in no time and keeps when it was sent, and a pause that takes its time.
pub record Keeps {S E : Type 0} (world : World S E) (socket : world.Socket)
    (sent : S → List (ℕ × CanFrame)) : Type 0 where
  pub accepts : (f : CanFrame) (s : S) → (world.send socket f s).0 ≡ ok tt
  pub instant : (f : CanFrame) (s : S) → world.now (world.send socket f s).1 ≡ world.now s
  pub logs :
      (f : CanFrame) (s : S) → sent (world.send socket f s).1 ≡ sent s ++ (world.now s, f) ∷ []
  pub sleeps : (n : ℕ) (s : S) → world.now (world.sleep n s) ≡ world.now s + n
  pub silent : (n : ℕ) (s : S) → sent (world.sleep n s) ≡ sent s

-- Each frame at its distance from a time.
abbrev pub at_times : (start : ℕ) → Timestamp → List CaptureEvent → List (ℕ × CanFrame)
at_times start first [] = []
at_times start first (event ∷ rest) =
    (start + (since_epoch event.timestamp - since_epoch first), event.frame)
    ∷ at_times start first rest

delta_ns-since_epoch :
    (previous current : Timestamp)
    → neg_part previous.seconds ≡ 0
    → neg_part current.seconds ≡ 0
    → since_epoch current - since_epoch previous < 2 ^ 64
    → delta_ns previous current ≡ since_epoch current - since_epoch previous
unfolding delta_ns
delta_ns-since_epoch previous current hp hc small = rw (hp, hc) (omega (arith, small))

module _ {S E F : Type 0} (world : World S E) (scaled : F → ℕ → ℕ) (socket : world.Socket)
    (sent : S → List (ℕ × CanFrame)) (keeps : Keeps world socket sent) where
  send_step : (f : CanFrame) (s : S) → world.send socket f s ≡ (ok tt, (world.send socket f s).1)
  send_step f s = ap (λ r. (r, (world.send socket f s).1)) (keeps.accepts f s)

  later-at_times :
      (start : ℕ) (first previous : Timestamp) (events : List CaptureEvent) (s : S)
      → neg_part previous.seconds ≡ 0
      → since_epoch first ≤ since_epoch previous
      → world.now s ≡ start + (since_epoch previous - since_epoch first)
      → Follow previous events
      → (s' : S) × (replay world scaled socket preserve (some previous) events s ≡ (ok tt, s'))
        × (sent s' ≡ sent s ++ at_times start first events)
  unfolding replay pause
  later-at_times start first previous [] s from order now_is follow =
      (s, refl, sym (append-nil (sent s)))
  later-at_times start first previous (event ∷ rest) s from order now_is follow =
      let delta : ℕ = delta_ns previous event.timestamp in
      let waited : S = world.sleep delta s in
      let after : S = (world.send socket event.frame waited).1 in
      let gap : delta ≡ since_epoch event.timestamp - since_epoch previous =
        delta_ns-since_epoch previous event.timestamp from follow.0 follow.2 in
      let due : world.now waited ≡ start + (since_epoch event.timestamp - since_epoch first) =
        omega (arith, keeps.sleeps delta s, now_is, gap, order, follow.1) in
      let (s', steps, sends) =
        later-at_times start first event.timestamp rest after follow.0
          (omega (arith, order, follow.1)) (keeps.instant event.frame waited ∙ due) follow.3 in
      (
        s',
        rw (send_step event.frame waited) steps,
        sends
            ∙ rw (keeps.logs event.frame waited, keeps.silent delta s, due)
                (append_assoc (sent s)
                  ((start + (since_epoch event.timestamp - since_epoch first), event.frame) ∷ [])
                  (at_times start first rest)),
      )

-- Where the socket takes every frame in no time and a pause takes its time, `replay` without a scale
-- succeeds for events in the order of their times, none before the epoch and with less than 2^64
-- nanoseconds from each to the next, and sends all frames in their order, each as long after the first
-- one as its event is after the first event. The first one is sent at once.
pub replay-at_times :
    {S E F : Type 0} (world : World S E) (scaled : F → ℕ → ℕ) (socket : world.Socket)
    (sent : S → List (ℕ × CanFrame)) (event : CaptureEvent) (rest : List CaptureEvent) (s : S)
    → Keeps world socket sent
    → Follow event.timestamp (event ∷ rest)
    → (s' : S) × (replay world scaled socket preserve none (event ∷ rest) s ≡ (ok tt, s'))
      × (sent s' ≡ sent s ++ at_times (world.now s) event.timestamp (event ∷ rest))
unfolding replay pause
replay-at_times {S} world scaled socket sent event rest s keeps follow =
    let after : S = (world.send socket event.frame s).1 in
    let first : world.now s
        ≡ world.now s + (since_epoch event.timestamp - since_epoch event.timestamp) =
      omega arith in
    let (s', steps, sends) =
      later-at_times world scaled socket sent keeps (world.now s) event.timestamp event.timestamp
        rest after follow.0 (omega arith) (keeps.instant event.frame s ∙ first) follow.3 in
    (
      s',
      rw (send_step world scaled socket sent keeps event.frame s) steps,
      sends
          ∙ rw (keeps.logs event.frame s) (
              append_assoc (sent s) ((world.now s, event.frame) ∷ [])
                (at_times (world.now s) event.timestamp rest)
              ∙ ap (λ n. sent s ++ (n, event.frame) ∷ at_times (world.now s) event.timestamp rest)
                  first),
    )
