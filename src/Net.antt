-- ===== src/Net.antt =====
-- The network layer, src/net: the byte encoding, the messages and the frames.
pub mod Wire
pub mod Protocol
pub mod Frames
pub mod Security
pub mod Auth
pub mod Workers
pub mod Tests
