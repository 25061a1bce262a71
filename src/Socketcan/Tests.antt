-- ===== src/Socketcan/Tests.antt =====
-- Concrete runs of the SocketCAN backend, over a small system with one descriptor and one wire.
use cantools_rs.Prelude.{
  ℕ, ◌≡◌, refl, Bool, true, false, some, [], ◌∷◌, ok, err, is_ok, Bytes, length, ◌==◌, arith,
}
use cantools_rs.Prelude.Int.{pos}
use cantools_rs.Core.{Text, CoreError, CanFrame, data_frame}
use cantools_rs.Core.Validation.{IsValidFrame}
use cantools_rs.Socketcan.Wire.{frame_bytes, frame_from_bytes}
use cantools_rs.Socketcan.RoundTrip.{as_received, frame_from_bytes-frame_bytes}
use cantools_rs.Socketcan.Backend.{
  Os, RawSocket, tp, unknown_interface, raw_open, recv_native, protocol_open,
}
use cantools_rs.Socketcan.Sockets.{IsReply, recv_native-IsReply}
use cantools_rs.Socketcan.Calls.{Tracks}
use cantools_rs.Socketcan.Descriptors.{raw_open_balance, protocol_open_leaks}

record World : Type 0 where
  opened : Bool
  wire : Bytes

-- The index of an interface is the first byte of its name.
abbrev index_of : Text → ℕ
index_of [] = 0
index_of (c ∷ cs) = c

abbrev system : Os World ℕ
system = record {
  socket = λ protocol w. (some 3, record w { opened = true });
  if_nametoindex = λ name w. (index_of name, w);
  if_nameindex = λ w. (some [], w);
  to_string_lossy = λ name. name;
  setsockopt = λ fd level option value w. (true, w);
  bind = λ fd addr w. (false, w);
  get_flags = λ fd w. (some 0, w);
  set_flags = λ fd flags w. (true, w);
  o_nonblock = 2048;
  write = λ fd bytes w. (true, record w { wire = bytes });
  recv = λ fd size w. (some w.wire, w);
  read = λ fd size w. (some w.wire, w);
  close = λ fd w. record w { opened = false };
  errno = λ w. 22;
  would_block = λ e. e == 11;
  now = λ w. (pos 0, w);
}

abbrev is_open : World → ℕ → Bool
is_open w fd = w.opened

system-Tracks : Tracks system is_open
system-Tracks = record {
  socket_opens = λ protocol fd s h. refl;
  close_closes = λ fd s. refl;
  lookup_keeps = λ name s fd. refl;
  setsockopt_keeps = λ fd' level option value s fd. refl;
  bind_keeps = λ fd' addr s fd. refl;
}

abbrev start : World
start = record { opened = false; wire = 35 ∷ 1 ∷ 0 ∷ 64 ∷ 2 ∷ 0 ∷ 0 ∷ 0 ∷ 7 ∷ 9 ∷ [] }

abbrev fd_frame : CanFrame
fd_frame = record {
  id = record { raw = 0x18daf110; extended = true };
  class = data_frame;
  payload = 1 ∷ 2 ∷ 3 ∷ 4 ∷ 5 ∷ 6 ∷ 7 ∷ 8 ∷ 9 ∷ [];
  fd = true;
  fd_flags = record { bit_rate_switch = true; error_state_indicator = false };
}

fd_frame-IsValid : IsValidFrame fd_frame
fd_frame-IsValid = record { id_fits = omega arith; payload_fits = omega arith }

abbrev raw : RawSocket
raw = record { fd = 3; interface = 99 ∷ []; ifindex = 99 }

frame_from_bytes-frame_bytes_example :
    (bytes : Bytes) × (frame_bytes {E = CoreError} fd_frame ≡ ok bytes)
    × (length bytes ≡ 72)
    × (frame_from_bytes bytes ≡ ok (as_received fd_frame))
frame_from_bytes-frame_bytes_example =
    frame_from_bytes-frame_bytes {E = CoreError} fd_frame fd_frame-IsValid

recv_native-IsReply_example : IsReply system (recv_native system 3 start).0
recv_native-IsReply_example = recv_native-IsReply system 3 start

raw_open_balance_example :
    is_open (raw_open system (99 ∷ []) start).1 3 ≡ is_ok (raw_open system (99 ∷ []) start).0
raw_open_balance_example =
    raw_open_balance system is_open (99 ∷ []) 3 start system-Tracks (λ s s'. refl) refl

protocol_open_leaks_example :
    ((protocol_open system 6 (tp 1 2) [] start).0 ≡ err (unknown_interface []))
    × (is_open (protocol_open system 6 (tp 1 2) [] start).1 3 ≡ true)
protocol_open_leaks_example =
    protocol_open_leaks system is_open 6 (tp 1 2) [] 3 start system-Tracks refl (λ s. refl)
