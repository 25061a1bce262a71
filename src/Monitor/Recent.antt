-- ===== src/Monitor/Recent.antt =====
-- The monitor keeps the last events, up to its limit.
use cantools_rs.Prelude.{
  ℕ, zero, suc, ◌+◌, ◌-◌, ◌≤◌, ◌<◌, ◌≡◌, refl, ◌∙◌, ap, sym, false, List, [], ◌∷◌, ◌++◌, ok, length,
  drop, ◌==◌, arith, All, append_assoc, append-nil, drop-drop, drop_all, length-drop, length-append,
  lt-cases, inl, inr,
}
use cantools_rs.Core.{CaptureEvent}
use cantools_rs.Monitor.{push_event, receive, Round, quits, running, run_loop}

-- The last `limit` of the events seen.
abbrev pub last_events : ℕ → List CaptureEvent → List CaptureEvent
last_events limit seen = drop (length seen - limit) seen

drop-append_le :
    (k : ℕ) (xs ys : List CaptureEvent) → k ≤ length xs → drop k (xs ++ ys) ≡ drop k xs ++ ys
drop-append_le zero xs ys h = refl
drop-append_le (suc k) [] ys h = absurd (omega arith)
drop-append_le (suc k) (x ∷ xs) ys h = drop-append_le k xs ys (omega arith)

push_event-last_events :
    (limit : ℕ) (seen : List CaptureEvent) (event : CaptureEvent)
    → 0 < limit
    → push_event limit (last_events limit seen) event ≡ last_events limit (seen ++ event ∷ [])
unfolding push_event
push_event-last_events limit seen event pos = elim (lt-cases (length seen) limit) [
  | inl few ↦
      let none_left : length seen - limit ≡ 0 = omega arith in
      let still_none : length (seen ++ event ∷ []) - limit ≡ 0 =
        omega (arith, length-append seen (event ∷ [])) in
      rw (none_left, still_none) (ground arith)
  | inr many ↦
      let full : length (drop (length seen - limit) seen) ≡ limit =
        omega (arith, length-drop (length seen - limit) seen) in
      let one_more : length (seen ++ event ∷ []) - limit ≡ length seen - limit + 1 =
        omega (arith, length-append seen (event ∷ [])) in
      let cut : drop (length seen - limit + 1) (seen ++ event ∷ [])
          ≡ drop 1 (drop (length seen - limit) seen) ++ event ∷ [] =
        drop-append_le (length seen - limit + 1) seen (event ∷ []) (omega arith)
        ∙ ap (λ t. t ++ event ∷ []) (sym (drop-drop 1 (length seen - limit) seen)) in
      rw (one_more, cut) (ground (arith, full))
]

-- For a limit above zero, the inner loop keeps exactly the last `limit` of all events received so far,
-- in order.
pub receive-last_events :
    (limit : ℕ) (seen received : List CaptureEvent)
    → 0 < limit
    → receive limit (last_events limit seen) received ≡ last_events limit (seen ++ received)
unfolding receive
receive-last_events limit seen [] pos = ap (last_events limit) (sym (append-nil seen))
receive-last_events limit seen (event ∷ rest) pos =
    ap (λ t. receive limit t rest) (push_event-last_events limit seen event pos)
    ∙ receive-last_events limit (seen ++ event ∷ []) rest pos
    ∙ ap (last_events limit) (append_assoc seen (event ∷ []) rest)

-- With a limit of zero, the inner loop keeps all that a queue which is not empty holds, and everything
-- that it receives: the queue grows without bound.
pub receive_unbounded :
    (event : CaptureEvent) (events received : List CaptureEvent)
    → receive 0 (event ∷ events) received ≡ (event ∷ events) ++ received
unfolding receive push_event
receive_unbounded event events [] = sym (append-nil (event ∷ events))
receive_unbounded event events (next ∷ rest) =
    let not_full : (length (event ∷ events) == 0) ≡ false = ground arith in
    rw not_full (
      receive_unbounded event (events ++ next ∷ []) rest
      ∙ ap (λ t. event ∷ t) (append_assoc events (next ∷ []) rest))

-- What all rounds received up to each that is drawn, where no round fails or quits.
abbrev pub IsQuiet : {E : Type 0} → Round E → Type 0
IsQuiet round =
    (round.ended ≡ ok tt) × (round.drawn ≡ ok tt) × (quits round.poll round.read ≡ ok false)

abbrev pub shown : {E : Type 0} → ℕ → List CaptureEvent → List (Round E) → List (List CaptureEvent)
shown limit seen [] = []
shown limit seen (round ∷ rest) =
    last_events limit (seen ++ round.received) ∷ shown limit (seen ++ round.received) rest

quiet_rounds :
    {E : Type 0} (limit : ℕ) (seen : List CaptureEvent) (rounds : List (Round E))
    → 0 < limit
    → All IsQuiet rounds
    → run_loop limit (last_events limit seen) rounds ≡ (shown limit seen rounds, running)
unfolding run_loop
quiet_rounds limit seen [] pos quiet = refl
quiet_rounds limit seen (round ∷ rest) pos ((ended, drawn, quit), quiet) =
    rw
      (
        ended,
        drawn,
        quit,
        receive-last_events limit seen round.received pos,
        quiet_rounds limit (seen ++ round.received) rest pos quiet,
      )
      refl

-- For a limit above zero, as long as nothing fails and `q` is not pressed, `run_loop` goes on, and
-- each screen shows the last `limit` of all events received up to then, in order.
pub run_loop-shown :
    {E : Type 0} (limit : ℕ) (rounds : List (Round E))
    → 0 < limit
    → All IsQuiet rounds
    → run_loop limit [] rounds ≡ (shown limit [] rounds, running)
run_loop-shown limit rounds pos quiet =
    ap (λ t. run_loop limit t rounds)
      (sym (drop_all (length {A = CaptureEvent} [] - limit) [] (omega arith)))
    ∙ quiet_rounds limit [] rounds pos quiet
