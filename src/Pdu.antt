-- ===== src/Pdu.antt =====
-- c++/base/ImPduBase.h, ImPduBase.cpp, ImPduClient.h and ImPduClient.cpp: the protocol data units.
-- The children: the types; parsing; composing; what is proved of them.
pub mod Types
pub mod Read
pub mod Compose
pub mod Frame
pub mod ReadFrame
pub mod Message
pub mod SendFrame
pub mod RoundTrip
pub mod Texts
pub mod Reject
pub mod Undersized
mod Tests
