-- ===== src/Socketcan/Descriptors.antt =====
-- Which descriptors the `open` calls leave open.
use cantools_rs.Prelude.{
  ℕ, ◌≡◌, refl, ◌∙◌, ap, sym, Bool, true, some, Result, ok, err, panic, is_ok, not, ◌≢◌, ◌==◌,
  arith, Bool-cases, inl, inr,
}
use cantools_rs.Prelude.Effect.{Step, ◌>>=◌, next, return}
use cantools_rs.Core.{Text}
use cantools_rs.Socketcan.Backend.{
  Error, unknown_interface, Os, RawSocket, CanAddr, has_nul, known, interface_index, set_fd_frames,
  bind_raw_socket, open_socket, closing, raw_open, protocol_open,
}
use cantools_rs.Socketcan.Calls.{
  Tracks, interface_index_keeps, set_fd_frames_keeps, bind_keeps, next_keeps, next_quiet,
  next-is_ok, checked_quiet, set_quiet, next_err, index_unknown, valued_some,
}

module _ {S IoError : Type 0} (os : Os S IoError) (is_open : S → ℕ → Bool)
    (tracks : Tracks os is_open) (fd : ℕ) where
  module _ (name : Text)
      (steady : (s s' : S) → (os.if_nametoindex name s).0 ≡ (os.if_nametoindex name s').0) where
    known-is_ok : (p : ℕ × S) → is_ok (known os name p).0 ≡ not (p.0 == 0)
    known-is_ok (index, s) = ground arith

    -- The lookup of the interface succeeds always or never.
    index_steady :
        (s s' : S) → is_ok (interface_index os name s).0 ≡ is_ok (interface_index os name s').0
    unfolding interface_index
    index_steady s s' = elim (Bool-cases (has_nul name)) [
      | inl bad ↦ rw bad refl
      | inr good ↦ rw good (
          known-is_ok (os.if_nametoindex name s)
          ∙ ap (λ n. not (n == 0)) (steady s s')
          ∙ sym (known-is_ok (os.if_nametoindex name s')))
    ]

    index_quiet : (s : S) → (interface_index os name s).0 ≢ panic
    unfolding interface_index
    index_quiet s = ground arith

    -- The end of `raw_open`, behind the calls that close the descriptor on an error.
    abbrev rest : Unit {0} → Step S (Error IoError) RawSocket
    rest set = interface_index os name >>= λ ifindex.
        return (record { fd = fd; interface = name; ifindex = ifindex })

    rest_balance :
        (q : Result (Error IoError) ℕ × S)
        → is_ok q.0 ≡ true
        → is_open q.1 fd ≡ true
        → let done : Result (Error IoError) RawSocket × S =
            next (λ ifindex. return (record { fd = fd; interface = name; ifindex = ifindex })) q in
          is_open done.1 fd ≡ is_ok done.0
    rest_balance (ok index, s) good h = h
    rest_balance (err e, s) good h = absurd (ground arith)
    rest_balance (panic, s) good h = absurd (ground arith)

    close_balance :
        (p : Result (Error IoError) (Unit {0}) × S)
        → is_open p.1 fd ≡ true
        → p.0 ≢ panic
        → (is_ok p.0 ≡ true → (s : S) → is_ok (interface_index os name s).0 ≡ true)
        → is_open (next rest (closing os fd p)).1 fd ≡ is_ok (next rest (closing os fd p)).0
    close_balance (ok u, s) h quiet found =
        rest_balance (interface_index os name s) (found refl s)
          ((interface_index_keeps os is_open tracks fd) name s ∙ h)
    close_balance (err e, s) h quiet found = tracks.close_closes fd s
    close_balance (panic, s) h quiet found = absurd (quiet refl)

    bind_open : (s : S) → is_open s fd ≡ true → is_open (bind_raw_socket os fd name s).1 fd ≡ true
    unfolding bind_raw_socket
    bind_open s h =
        (next_keeps os is_open tracks fd) _ (interface_index os name s)
          ((interface_index_keeps os is_open tracks fd) name s ∙ h)
          (λ i s' h'. (bind_keeps os is_open tracks fd) _ s' ∙ h')

    bind_quiet : (s : S) → (bind_raw_socket os fd name s).0 ≢ panic
    unfolding bind_raw_socket
    bind_quiet s =
        (next_quiet os is_open tracks fd) _ (interface_index os name s) (index_quiet s)
          (λ i s'. (checked_quiet os is_open tracks fd) _)

    bind_found :
        (s : S)
        → is_ok (bind_raw_socket os fd name s).0 ≡ true
        → is_ok (interface_index os name s).0 ≡ true
    unfolding bind_raw_socket
    bind_found s h = ((next-is_ok os is_open tracks fd) _ (interface_index os name s) h).0

    -- `raw_open` with the descriptor that `socket` returned: it is open afterwards exactly if the call
    -- succeeded.
    configure_balance :
        (s : S)
        → is_open s fd ≡ true
        → let done : Result (Error IoError) RawSocket × S =
            next rest
              (closing os fd ((set_fd_frames os fd >>= λ _. bind_raw_socket os fd name) s)) in
          is_open done.1 fd ≡ is_ok done.0
    configure_balance s h =
        close_balance ((set_fd_frames os fd >>= λ _. bind_raw_socket os fd name) s)
          ((next_keeps os is_open tracks fd) _ (set_fd_frames os fd s)
            ((set_fd_frames_keeps os is_open tracks fd) s ∙ h) λ u s'. bind_open s')
          ((next_quiet os is_open tracks fd) _ (set_fd_frames os fd s)
            ((set_quiet os is_open tracks fd) s) λ u s'. bind_quiet s')
          (λ good s2.
            let (_, u, s', found) =
              (next-is_ok os is_open tracks fd) _ (set_fd_frames os fd s) good in
            index_steady s2 s' ∙ bind_found s' found)

-- Where the calls open and close descriptors as documented, `socket` succeeds, and the interface name
-- keeps its index, `RawSocketImpl::open` leaves the descriptor that it got open exactly if it
-- succeeds: every error behind `socket` closes it.
pub raw_open_balance :
    {S IoError : Type 0} (os : Os S IoError) (is_open : S → ℕ → Bool) (name : Text) (fd : ℕ) (s : S)
    → Tracks os is_open
    → ((s s' : S) → (os.if_nametoindex name s).0 ≡ (os.if_nametoindex name s').0)
    → (os.socket 1 s).0 ≡ some fd
    → is_open (raw_open os name s).1 fd ≡ is_ok (raw_open os name s).0
unfolding raw_open open_socket
raw_open_balance os is_open name fd s tracks steady opened =
    rw (valued_some os is_open tracks fd (os.socket 1 s) fd opened) (
      configure_balance os is_open tracks fd name steady (os.socket 1 s).1
        (tracks.socket_opens 1 fd s opened))

-- Where the calls open and close descriptors as documented and `socket` succeeds,
-- `IsotpSocketImpl::open` and `J1939SocketImpl::open` leak the descriptor if the interface is not
-- known: they report that error, and the descriptor stays open.
pub protocol_open_leaks :
    {S IoError : Type 0} (os : Os S IoError) (is_open : S → ℕ → Bool) (protocol : ℕ)
    (addr : CanAddr) (name : Text) (fd : ℕ) (s : S)
    → Tracks os is_open
    → (os.socket protocol s).0 ≡ some fd
    → ((s' : S) → (os.if_nametoindex name s').0 ≡ 0)
    → ((protocol_open os protocol addr name s).0 ≡ err (unknown_interface name))
      × (is_open (protocol_open os protocol addr name s).1 fd ≡ true)
unfolding protocol_open open_socket
protocol_open_leaks {S} {IoError} os is_open protocol addr name fd s tracks opened unknown =
    let s' : S = (os.socket protocol s).1 in
    rw
      (
        valued_some os is_open tracks fd (os.socket protocol s) fd opened,
        next_err os is_open tracks fd _ (interface_index os name s') (unknown_interface name)
            (index_unknown os is_open tracks fd name s' (unknown s')),
      )
      (
        refl,
        interface_index_keeps os is_open tracks fd name s'
            ∙ tracks.socket_opens protocol fd s opened,
      )
