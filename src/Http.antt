-- ===== src/Http.antt =====
-- libhttp: the parts of HTTP messages.
pub mod Search
pub mod Uri
pub mod Method
pub mod StatusCode
pub mod Version
pub mod RequestLine
pub mod StatusLine
mod Tests
