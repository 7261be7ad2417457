-- ===== src/Tftp.antt =====
-- libtftp: the packets of TFTP.
pub mod Types
pub mod Packet
pub mod Packets
pub mod Wire
pub mod Replies
mod Tests
