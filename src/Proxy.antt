-- ===== src/Proxy.antt =====
-- The caching proxy MP4/src/http_proxy.cpp. Each connection is handled by a thread of its own; the
-- model takes their handlers one after the other.
pub mod Address
pub mod Cache
pub mod Handler
mod Tests
