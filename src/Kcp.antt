-- ===== src/Kcp.antt =====
-- The mKCP transport, transport/internet/kcp.
pub mod Segment
pub mod Rtt
pub mod Window
pub mod Sending
pub mod AckList
pub mod Receiving
pub mod Connection
pub mod Config
pub mod Packet
pub mod Authenticator
pub mod Link
