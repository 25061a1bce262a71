-- ===== src/Socketcan.antt =====
-- crates/cantools-socketcan/src/lib.rs: the Linux SocketCAN backend. What `send` writes and `recv`
-- reads is in Wire, the calls over the operating system in Backend.
pub mod Wire
pub mod Backend
pub mod IdWord
pub mod RoundTrip
pub mod Receive
pub mod Sockets
pub mod Calls
pub mod Descriptors
mod Tests
