-- ===== src/Sbcp.antt =====
-- libsbcp: the messages of the simple broadcast chat protocol, libsbcp/include/sbcp/sbcp.hpp,
-- libsbcp/src/sbcp.cpp and libsbcp/src/messages.cpp.
pub mod Types
pub mod Header
pub mod Attribute
pub mod Message
pub mod Reading
pub mod Messages
pub mod Spec
pub mod RoundTrip
pub mod Ack
pub mod Evaluation
mod Tests
