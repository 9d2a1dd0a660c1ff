-- ===== src/Server/History/Once.antt =====
-- A packet that is sent again to a Server of src/net/server.cpp.
use gameserver_hide.Base.{ℕ, Bool, true, false, ◌&&◌, none, some, List, [], ◌∷◌, Text}
use gameserver_hide.Net.Frames.{FrameHeader}
use gameserver_hide.Session.{Session}
use gameserver_hide.Server.{admit}
use gameserver_hide.Server.Replay.{is_passed}
use gameserver_hide.Server.World.{World, Server, session_of}
use gameserver_hide.Server.History.{Call, step}
use gameserver_hide.Server.History.Replays.{spares}

module _ {B S R : Type 0} (w : World B S R) where
  -- Whether a packet of the session `id` gets through the checks to the handlers.
  unfoldable pub passes : ℕ → FrameHeader → Text → ℕ → Server B S R → Bool
  passes id header payload now s = elim (session_of id s) [
    | none ↦ false
    | some session ↦
        is_passed (admit s.security_policy w.decimal header payload now (s.metrics, session)).1
  ]

  -- Calls none of which is a SessionReconnectReq of the session `k` or creates a session of its id.
  unfoldable pub all_spare : ℕ → Server B S R → List (Call B) → Bool
  all_spare k s [] = true
  all_spare k s (c ∷ cs) = spares k s c && all_spare k (step w s c) cs
