-- ===== src/Tcp.antt =====
-- src/tcpstack.c: the TCP stack in user space that carries connections through the tunnel.
pub mod Seq
pub mod Types
pub mod Sendbuf
pub mod Checksum
pub mod Segment
pub mod Reassembly
pub mod Conn
pub mod Retransmit
pub mod Input
pub mod Delivery
pub mod Sending
pub mod Stack
pub mod Fixture
mod Tests
