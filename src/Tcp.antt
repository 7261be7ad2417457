-- ===== src/Tcp.antt =====
-- libtcp: servers that fork or start a thread for each client, and their clients.
pub mod Address
pub mod Processes
pub mod Configuration
pub mod Serving
pub mod Setup
pub mod Stopping
pub mod Client
mod Tests
