-- ===== src/Cli/World.antt =====
-- crates/cantools-cli/src/main.rs: what the commands use of the outside: the CAN socket of
-- cantools-socketcan, the clock and the pauses of the standard library, and the standard output. Times
-- and pauses are nanoseconds.
use cantools_rs.Prelude.{ℕ, Bool, Option}
use cantools_rs.Prelude.Effect.{Step}
use cantools_rs.Core.{Text, CanFrame}
use cantools_rs.Socketcan.Backend as Backend
use cantools_rs.Socketcan.Backend.{Os, RawSocket, raw_open, raw_send, recv_native, set_nonblocking}

pub record World (S E : Type 0) : Type 1 where
  pub Socket : Type 0
  pub open_socket : Text → Step S E Socket
  pub send : Socket → CanFrame → Step S E (Unit {0})
  pub recv : Socket → Step S E (Option CanFrame)
  pub nonblocking : Socket → Bool → Step S E (Unit {0})
  pub sleep : ℕ → S → S
  pub now : S → ℕ
  pub println : Text → S → S
  pub eprintln : Text → S → S

-- The world with the sockets of cantools-socketcan.
abbrev pub linux_world :
    {S IoError : Type 0}
    → Os S IoError
    → (sleep : ℕ → S → S) → (now : S → ℕ) → (println eprintln : Text → S → S)
    → World S (Backend.Error IoError)
linux_world os sleep now println eprintln = record {
  Socket = RawSocket;
  open_socket = raw_open os;
  send = raw_send os;
  recv = λ raw. recv_native os raw.fd;
  nonblocking = λ raw. set_nonblocking os raw.fd;
  sleep = sleep;
  now = now;
  println = println;
  eprintln = eprintln;
}
