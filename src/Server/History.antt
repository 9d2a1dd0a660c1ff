-- ===== src/Server/History.antt =====
-- The calls that a Server of src/net/server.cpp gets, as a relation between its states: the packets of its
-- sessions, the calls of its owner, and what partyService() and instanceManager() let a caller change.
pub mod Frames
pub mod Objects
pub mod Contexts
pub mod Logins
pub mod Recorded
pub mod Numbers
pub mod Replays
pub mod Once
pub mod Exclusive
pub mod Users
pub mod Refused
pub mod Rewarded
pub mod Tests
use gameserver_hide.Base.{ℕ, Option, none, some, List, [], ◌∷◌, Text}
use gameserver_hide.Net.Frames.{FrameHeader}
use gameserver_hide.Session.{SessionConfig}
use gameserver_hide.Party.Types.{PartyService}
use gameserver_hide.Dungeon.{InstanceManager}
use gameserver_hide.Server.World.{World, Server}
use gameserver_hide.Server.Handle.{
  handle_packet, create_session, remove_session, tick, force_disconnect,
}

pub data Call (B : Type 0) : Type 0 where
  packet : (clock time id : ℕ) → FrameHeader → Text → (now : ℕ) → Call B
  create : SessionConfig → B → (now : ℕ) → Call B
  remove : (clock id : ℕ) → Call B
  ticked : (clock now : ℕ) → Call B
  disconnected : (clock id : ℕ) → Call B
  parties_used : PartyService → Call B
  instances_used : InstanceManager → Call B

module _ {B S R : Type 0} (w : World B S R) where
  unfoldable pub step : Server B S R → Call B → Server B S R
  step s (packet clock time id header payload now) =
      (handle_packet w clock time id header payload now s).0
  step s (create config bucket now) = (create_session config bucket now s).0
  step s (remove clock id) = remove_session w clock id s
  step s (ticked clock now) = tick w clock now s
  step s (disconnected clock id) = (force_disconnect w clock id s).0
  step s (parties_used parties) = record s { parties = parties }
  step s (instances_used instances) = record s { instances = instances }

  unfoldable pub run : Server B S R → List (Call B) → Server B S R
  unfolding step
  run s [] = s
  run s (c ∷ cs) = run (step s c) cs
