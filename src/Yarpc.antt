-- ===== src/Yarpc.antt =====
-- yarpc: HTTP messages over byte streams, by which the relay server is called.
pub mod Query
pub mod Chars
pub mod Message
pub mod Method
pub mod Request
pub mod Response
pub mod Numerals
pub mod Reading
pub mod RoundTrip
pub mod Messages
