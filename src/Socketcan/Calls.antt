-- ===== src/Socketcan/Calls.antt =====
-- What each call on the way to an open socket does to the descriptor: the steps of `open`.
use cantools_rs.Prelude.{
  ℕ, ◌≡◌, refl, ◌∙◌, ap, Bool, true, false, Option, none, some, Result, ok, err, panic, is_ok, ◌≢◌,
  arith, Bool-cases, inl, inr,
}
use cantools_rs.Prelude.Effect.{Step, next}
use cantools_rs.Core.{Text}
use cantools_rs.Socketcan.Backend.{
  Error, unknown_interface, Os, SockAddrCan, has_nul, known, interface_index, set_fd_frames, valued,
  checked,
}

-- What the calls do to the set of open descriptors: `socket` opens the one that it returns, `close`
-- closes the one that it is given, and the rest leave all as they are.
pub record Tracks {S IoError : Type 0} (os : Os S IoError) (is_open : S → ℕ → Bool) : Type 0 where
  pub socket_opens :
      (protocol fd : ℕ) (s : S)
      → (os.socket protocol s).0 ≡ some fd
      → is_open (os.socket protocol s).1 fd ≡ true
  pub close_closes : (fd : ℕ) (s : S) → is_open (os.close fd s) fd ≡ false
  pub lookup_keeps :
      (name : Text) (s : S) (fd : ℕ) → is_open (os.if_nametoindex name s).1 fd ≡ is_open s fd
  pub setsockopt_keeps :
      (fd' level option value : ℕ) (s : S) (fd : ℕ)
      → is_open (os.setsockopt fd' level option value s).1 fd ≡ is_open s fd
  pub bind_keeps :
      (fd' : ℕ) (addr : SockAddrCan) (s : S) (fd : ℕ)
      → is_open (os.bind fd' addr s).1 fd ≡ is_open s fd

module _ {S IoError : Type 0} (os : Os S IoError) (is_open : S → ℕ → Bool)
    (tracks : Tracks os is_open) (fd : ℕ) where
  pub checked_state : (p : Bool × S) → (checked os p).1 ≡ p.1
  checked_state (true, s) = refl
  checked_state (false, s) = refl

  pub known_state : (name : Text) (p : ℕ × S) → (known os name p).1 ≡ p.1
  known_state name (index, s) = ground arith

  pub interface_index_keeps :
      (name : Text) (s : S) → is_open (interface_index os name s).1 fd ≡ is_open s fd
  unfolding interface_index
  interface_index_keeps name s = elim (Bool-cases (has_nul name)) [
    | inl bad ↦ rw bad refl
    | inr good ↦ rw good (
        ap (λ t. is_open t fd) (known_state name (os.if_nametoindex name s))
        ∙ tracks.lookup_keeps name s fd)
  ]

  pub set_fd_frames_keeps : (s : S) → is_open (set_fd_frames os fd s).1 fd ≡ is_open s fd
  unfolding set_fd_frames
  set_fd_frames_keeps s =
      ap (λ t. is_open t fd) (checked_state (os.setsockopt fd 101 5 1 s))
      ∙ tracks.setsockopt_keeps fd 101 5 1 s fd

  pub bind_keeps :
      (addr : SockAddrCan) (s : S) → is_open (checked os (os.bind fd addr s)).1 fd ≡ is_open s fd
  bind_keeps addr s =
      ap (λ t. is_open t fd) (checked_state (os.bind fd addr s)) ∙ tracks.bind_keeps fd addr s fd

  -- A step behind another keeps the descriptor if both do.
  pub next_keeps :
      {A B : Type 0} (f : A → Step S (Error IoError) B) (p : Result (Error IoError) A × S)
      → is_open p.1 fd ≡ true
      → ((a : A) (s : S) → is_open s fd ≡ true → is_open (f a s).1 fd ≡ true)
      → is_open (next f p).1 fd ≡ true
  next_keeps f (ok a, s) h keeps = keeps a s h
  next_keeps f (err e, s) h keeps = h
  next_keeps f (panic, s) h keeps = h

  pub next_quiet :
      {A B : Type 0} (f : A → Step S (Error IoError) B) (p : Result (Error IoError) A × S)
      → p.0 ≢ panic
      → ((a : A) (s : S) → (f a s).0 ≢ panic)
      → (next f p).0 ≢ panic
  next_quiet f (ok a, s) h quiet = quiet a s
  next_quiet f (err e, s) h quiet = ground arith
  next_quiet f (panic, s) h quiet = absurd (h refl)

  -- Where both succeed, the first did, and the second from the state that it left.
  pub next-is_ok :
      {A B : Type 0} (f : A → Step S (Error IoError) B) (p : Result (Error IoError) A × S)
      → is_ok (next f p).0 ≡ true
      → (is_ok p.0 ≡ true) × (a : A) × (s : S) × (is_ok (f a s).0 ≡ true)
  next-is_ok f (ok a, s) h = (refl, a, s, h)
  next-is_ok f (err e, s) h = absurd (ground arith)
  next-is_ok f (panic, s) h = absurd (ground arith)

  pub checked_quiet : (p : Bool × S) → (checked os p).0 ≢ panic
  checked_quiet (true, s) = ground arith
  checked_quiet (false, s) = ground arith

  pub set_quiet : (s : S) → (set_fd_frames os fd s).0 ≢ panic
  unfolding set_fd_frames
  set_quiet s = checked_quiet (os.setsockopt fd 101 5 1 s)

  pub next_err :
      {A B : Type 0} (f : A → Step S (Error IoError) B) (p : Result (Error IoError) A × S)
      (e : Error IoError)
      → p.0 ≡ err e
      → next f p ≡ (err e, p.1)
  next_err f (ok a, s) e h = absurd (ground arith)
  next_err f (err e', s) e h = cc
  next_err f (panic, s) e h = absurd (ground arith)

  pub known_zero :
      (name : Text) (p : ℕ × S) → p.0 ≡ 0 → (known os name p).0 ≡ err (unknown_interface name)
  known_zero name (index, s) h = ground arith

  pub index_unknown :
      (name : Text) (s : S)
      → (os.if_nametoindex name s).0 ≡ 0
      → (interface_index os name s).0 ≡ err (unknown_interface name)
  unfolding interface_index
  index_unknown name s h = elim (Bool-cases (has_nul name)) [
    | inl bad ↦ rw bad refl
    | inr good ↦ rw good (known_zero name (os.if_nametoindex name s) h)
  ]

  pub valued_some :
      {A : Type 0} (p : Option A × S) (a : A) → p.0 ≡ some a → valued os p ≡ (ok a, p.1)
  valued_some (none, s) a h = absurd (ground arith)
  valued_some (some b, s) a h = cc
