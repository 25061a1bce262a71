-- ===== src/Socketcan/Backend.antt =====
-- crates/cantools-socketcan/src/lib.rs: the sockets, over the calls of libc. The operating system is
-- a parameter: its state, and what each call answers and leaves. A call that returns -1 answers with
-- `none` or `false`.
use cantools_rs.Prelude.{
  ℕ, ◌-◌, ◌^◌, bit_and, bit_or, Bool, true, false, Option, none, some, List, [], ◌∷◌, ◌++◌, ◌||◌,
  Result, ok, err, panic, map_err, Bytes, length, drop, ◌==◌, if◌then◌else◌,
}
use cantools_rs.Prelude.Effect.{Step, ◌>>=◌, next, return, lift}
use cantools_rs.Prelude.Int.{ℤ, signed}
use cantools_rs.Core.{Text, CoreError, CanFrame, CaptureEvent, rx, from_system_time, new_event}
use cantools_rs.Socketcan.Wire.{frame_bytes, frame_from_bytes}

pub data Error (IoError : Type 0) : Type 0 where
  io : IoError → Error IoError
  unsupported_platform : Error IoError
  unknown_interface : Text → Error IoError
  core : CoreError → Error IoError

pub record InterfaceInfo : Type 0 where
  pub name : Text
  pub index : ℕ

-- `union CanAddr`
pub data CanAddr : Type 0 where
  tp : (rx_id tx_id : ℕ) → CanAddr
  j1939 : (name pgn addr : ℕ) → CanAddr
  align : CanAddr

pub record SockAddrCan : Type 0 where
  pub can_ifindex : ℤ
  pub can_addr : CanAddr

-- `errno` is the error that the last call left. `recv` and `read` answer with the bytes that they
-- write to the start of a buffer of the given size.
pub record Os (S IoError : Type 0) : Type 0 where
  pub socket : ℕ → S → Option ℕ × S
  pub if_nametoindex : Text → S → ℕ × S
  pub if_nameindex : S → Option (List (ℕ × Option Bytes)) × S
  pub to_string_lossy : Bytes → Text
  pub setsockopt : (fd level option value : ℕ) → S → Bool × S
  pub bind : ℕ → SockAddrCan → S → Bool × S
  pub get_flags : ℕ → S → Option ℕ × S
  pub set_flags : (fd flags : ℕ) → S → Bool × S
  pub o_nonblock : ℕ
  pub write : ℕ → Bytes → S → Bool × S
  pub recv : (fd size : ℕ) → S → Option Bytes × S
  pub read : (fd size : ℕ) → S → Option Bytes × S
  pub close : ℕ → S → S
  pub errno : S → IoError
  pub would_block : IoError → Bool
  pub now : S → ℤ × S

pub record RawSocket : Type 0 where
  pub fd : ℕ
  pub interface : Text
  pub ifindex : ℕ

abbrev pub has_nul : Text → Bool
has_nul [] = false
has_nul (c ∷ cs) = c == 0 || has_nul cs

module _ {S IoError : Type 0} (os : Os S IoError) where
  open os use {
    socket, if_nametoindex, if_nameindex, to_string_lossy, setsockopt, bind, get_flags, set_flags,
    o_nonblock, write, recv, read, close, errno, would_block, now,
  }

  abbrev pub Io : Type 0 → Type 0
  Io A = Step S (Error IoError) A

  -- The result of a call that tells success only, or a value.
  abbrev pub checked : Bool × S → Result (Error IoError) (Unit {0}) × S
  checked (true, s) = (ok tt, s)
  checked (false, s) = (err (io (errno s)), s)

  abbrev pub valued : {A : Type 0} → Option A × S → Result (Error IoError) A × S
  valued (some a, s) = (ok a, s)
  valued (none, s) = (err (io (errno s)), s)

  abbrev pub known : Text → ℕ × S → Result (Error IoError) ℕ × S
  known name (index, s) = if index == 0 then (err (unknown_interface name), s) else (ok index, s)

  -- `CString::new` refuses a name with a NUL byte.
  unfoldable pub interface_index : Text → Io ℕ
  interface_index name s =
      if has_nul name then (err (unknown_interface name), s) else known name (if_nametoindex name s)

  unfoldable pub set_fd_frames : ℕ → Io (Unit {0})
  set_fd_frames fd s = checked (setsockopt fd 101 5 1 s)

  unfoldable pub bind_raw_socket : ℕ → Text → Io (Unit {0})
  unfolding interface_index
  bind_raw_socket fd interface = do
    ifindex ← interface_index interface
    λ s. checked (bind fd (record { can_ifindex = signed 32 ifindex; can_addr = align }) s)

  -- `!O_NONBLOCK` is taken in 32 bits.
  unfoldable pub set_nonblocking : ℕ → Bool → Io (Unit {0})
  set_nonblocking fd enabled = do
    current ← λ s. valued (get_flags fd s)
    let desired =
        if enabled then bit_or current o_nonblock else bit_and current (2 ^ 32 - 1 - o_nonblock)
    λ s. checked (set_flags fd desired s)

  abbrev pub recv_reply : Option Bytes × S → Result (Error IoError) (Option CanFrame) × S
  recv_reply (none, s) = if would_block (errno s) then (ok none, s) else (err (io (errno s)), s)
  recv_reply (some received, s) =
      next (λ f. return (some f)) (map_err core (frame_from_bytes received), s)

  unfoldable pub recv_native : ℕ → Io (Option CanFrame)
  recv_native fd s = recv_reply (recv fd 72 s)

  unfoldable pub open_socket : ℕ → Io ℕ
  open_socket protocol s = valued (socket protocol s)

  -- `if let Err(error) = ... { close_fd(fd); return Err(error); }`
  abbrev pub closing :
      {A : Type 0} → ℕ → Result (Error IoError) A × S → Result (Error IoError) A × S
  closing fd (ok a, s) = (ok a, s)
  closing fd (err e, s) = (err e, close fd s)
  closing fd (panic, s) = (panic, s)

  -- `RawSocketImpl::open`
  unfoldable pub raw_open : Text → Io RawSocket
  unfolding open_socket set_fd_frames bind_raw_socket interface_index
  raw_open interface = do
    fd ← open_socket 1
    set ← λ s. closing fd ((set_fd_frames fd >>= λ _. bind_raw_socket fd interface) s)
    ifindex ← interface_index interface
    return (record { fd = fd; interface = interface; ifindex = ifindex })

  -- `RawSocketImpl::send`
  unfoldable pub raw_send : RawSocket → CanFrame → Io (Unit {0})
  raw_send raw frame = do bytes ← lift (frame_bytes frame); λ s. checked (write raw.fd bytes s)

  unfoldable pub recv_event : RawSocket → Io (Option CaptureEvent)
  unfolding recv_native
  recv_event raw = do
    received ← recv_native raw.fd
    elim received [
      | none ↦ return none
      | some frame ↦ do
        time ← λ s. (let (ns, s') = now s in (ok ns, s'))
        timestamp ← lift (map_err core (from_system_time time))
        return (
            some (
              new_event timestamp (record { name = some raw.interface; index = some raw.ifindex })
                rx frame))
    ]

  -- `if result == -1 { close_fd(fd); return Err(Error::Io(errno())); }`: the error is read behind the
  -- call of `close`.
  abbrev pub closed_first : ℕ → Bool × S → Result (Error IoError) (Unit {0}) × S
  closed_first fd (true, s) = (ok tt, s)
  closed_first fd (false, s) = let s' = close fd s in (err (io (errno s')), s')

  -- `IsotpSocketImpl::open` and `J1939SocketImpl::open` differ in the protocol and the address; each
  -- socket is its descriptor.
  unfoldable pub protocol_open : ℕ → CanAddr → Text → Io ℕ
  unfolding open_socket interface_index
  protocol_open protocol addr interface = do
    fd ← open_socket protocol
    ifindex ← interface_index interface
    set ← λ s.
        closed_first fd (bind fd (record { can_ifindex = signed 32 ifindex; can_addr = addr }) s)
    return fd

  unfoldable pub isotp_open : Text → ℕ → ℕ → Io ℕ
  unfolding protocol_open
  isotp_open interface tx_id rx_id = protocol_open 6 (tp rx_id tx_id) interface

  unfoldable pub j1939_open : Text → ℕ → ℕ → ℕ → Io ℕ
  unfolding protocol_open
  j1939_open interface name pgn address = protocol_open 7 (j1939 name pgn address) interface

  -- `send` and `recv` of both sockets; `recv` also gives what the buffer holds afterwards.
  unfoldable pub payload_send : ℕ → Bytes → Io (Unit {0})
  payload_send fd payload s = checked (write fd payload s)

  unfoldable pub payload_recv : ℕ → Bytes → Io (ℕ × Bytes)
  payload_recv fd buffer = do
    bytes ← λ s. valued (read fd (length buffer) s)
    return (length bytes, bytes ++ drop (length bytes) buffer)

  -- The table of interfaces up to the entry with index 0 or no name.
  abbrev pub walk : List (ℕ × Option Bytes) → List InterfaceInfo
  walk [] = []
  walk ((index, none) ∷ rest) = []
  walk ((index, some name) ∷ rest) =
      let later = walk rest in
      if index == 0 then [] else record { name = to_string_lossy name; index = index } ∷ later

  unfoldable pub interfaces : Io (List InterfaceInfo)
  interfaces = do entries ← λ s. valued (if_nameindex s); return (walk entries)
