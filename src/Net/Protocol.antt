-- ===== src/Net/Protocol.antt =====
-- The messages of src/net/protocol.h and protocol.cpp.
pub mod Rewards
pub mod Account
pub mod Guild
pub mod Party
pub mod Invite
pub mod Match
pub mod Dungeon
pub mod Inventory
pub mod Chat
pub mod Packet
