-- ===== src/Socketcan/Sockets.antt =====
-- What the calls on sockets promise, for every operating system.
use cantools_rs.Prelude.{
  ℕ, ◌≡◌, refl, Bool, true, false, Option, none, some, Result, ok, err, panic, Bytes, arith,
}
use cantools_rs.Core.{CanFrame}
use cantools_rs.Core.Validation.{IsValidFrame}
use cantools_rs.Socketcan.Wire.{frame_from_bytes}
use cantools_rs.Socketcan.RoundTrip.{as_received, frame_from_bytes-frame_bytes}
use cantools_rs.Socketcan.Receive.{frame_from_bytes-Received}
use cantools_rs.Socketcan.Backend.{
  Error, io, unsupported_platform, unknown_interface, core, Os, RawSocket, recv_native, recv_reply,
  checked, raw_send,
}

module _ {S IoError : Type 0} (os : Os S IoError) where
  -- A reply of `recv_native`: nothing yet, a valid frame, or an error of the system.
  abbrev pub IsReply : Result (Error IoError) (Option CanFrame) → Type 0
  IsReply (ok none) = Unit {0}
  IsReply (ok (some f)) = IsValidFrame f
  IsReply (err (io e)) = os.would_block e ≡ false
  IsReply (err unsupported_platform) = ⊥
  IsReply (err (unknown_interface name)) = ⊥
  IsReply (err (core e)) = ⊥
  IsReply panic = ⊥

  -- Whatever the system answers, `recv_native` does not panic and reports no invalid frame: it
  -- returns nothing, a valid frame, or an error of the system that is not "would block".
  pub recv_native-IsReply : (fd : ℕ) (s : S) → IsReply (recv_native os fd s).0
  unfolding recv_native
  recv_native-IsReply fd s = reply (os.recv fd 72 s)
    where
      reply : (answer : Option Bytes × S) → IsReply (recv_reply os answer).0
      reply (none, s') = ground arith
      reply (some received, s') =
          let (f, returns, valid, kind) = frame_from_bytes-Received received in rw returns valid

  checked-true : (p : Bool × S) → p.0 ≡ true → checked os p ≡ (ok tt, p.1)
  checked-true (true, s) h = refl
  checked-true (false, s) h = absurd (ground arith)

  reply_frame :
      (p : Option Bytes × S) (bytes : Bytes) (f : CanFrame)
      → p.0 ≡ some bytes
      → frame_from_bytes bytes ≡ ok f
      → (recv_reply os p).0 ≡ ok (some f)
  reply_frame (none, s) bytes f h back = absurd (ground arith)
  reply_frame (some received, s) bytes f h back =
      let same : received ≡ bytes = cc in rw (same, back) refl

  -- Where every write to a socket succeeds and `peer` then receives exactly the written bytes, sending
  -- a valid frame succeeds, and it arrives there as it was sent (without the flags, if it is a classic
  -- frame).
  pub recv_native-raw_send :
      (raw : RawSocket) (peer : ℕ) (f : CanFrame) (s : S)
      → ((bytes : Bytes) → (os.write raw.fd bytes s).0 ≡ true)
      → ((bytes : Bytes) → (os.recv peer 72 (os.write raw.fd bytes s).1).0 ≡ some bytes)
      → IsValidFrame f
      → ((raw_send os raw f s).0 ≡ ok tt)
        × ((recv_native os peer (raw_send os raw f s).1).0 ≡ ok (some (as_received f)))
  unfolding raw_send recv_native
  recv_native-raw_send raw peer f s written delivered valid =
      let (bytes, sent, size, back) = frame_from_bytes-frame_bytes {E = Error IoError} f valid in
      rw (sent, checked-true (os.write raw.fd bytes s) (written bytes))
        (
          refl,
          reply_frame (os.recv peer 72 (os.write raw.fd bytes s).1) bytes (as_received f)
              (delivered bytes) back,
        )
