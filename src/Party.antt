-- ===== src/Party.antt =====
-- The parties of src/party: the state, the operations, and what the operations keep true.
pub mod Types
pub mod Membership
pub mod Invites
pub mod Query
pub mod Index
pub mod Run
pub mod Effects
pub mod Expiry
pub mod Roster
pub mod Tests
