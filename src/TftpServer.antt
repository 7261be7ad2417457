-- ===== src/TftpServer.antt =====
-- The server of MP3/src/tftp_server.cpp.
pub mod Transfer
pub mod Handler
pub mod Receiver
pub mod Delivery
pub mod Completion
pub mod Results
pub mod Requests
mod Tests
pub mod Storing
