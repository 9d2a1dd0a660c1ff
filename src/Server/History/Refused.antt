-- ===== src/Server/History/Refused.antt =====
-- What a Server of src/net/server.cpp does for a session without a user.
use native.Mathlib.Omega.{arith}
use gameserver_hide.Base.{ℕ, Bool, ◌||◌, Text, ◌==◌, if◌then◌else◌, ◌≡◌, refl}
use gameserver_hide.Base.Map.{find-put}
use gameserver_hide.Net.Frames.{FrameHeader}
use gameserver_hide.Session.{Session}
use gameserver_hide.Server.{Metrics}
use gameserver_hide.Server.World.{World, Server, on_session, session_of}
use gameserver_hide.Server.History.Objects.{checked}

-- The packets that need no login.
unfoldable pub is_account_type : ℕ → Bool
is_account_type type = type == 1 || (type == 4 || type == 6)

module _ {B S R : Type 0} where
  session_of-on_session :
      (id k : ℕ) (f : Session B → Session B) (s : Server B S R)
      → session_of k (on_session id f s)
        ≡ (if k == id then session_of k (on_session id f s) else session_of k s)
  unfolding session_of on_session
  session_of-on_session id k f s = grind (arith, find-put)

  -- Only the counters and the session object `id` differ.
  unfoldable pub IsUntouched : ℕ → Server B S R → Server B S R → Type 0
  IsUntouched id s s' =
      (s' ≡ record s { metrics = s'.metrics; sessions = s'.sessions; detached = s'.detached })
      × ((k : ℕ) → session_of k s' ≡ (if k == id then session_of k s' else session_of k s))

  pub IsUntouched-refl : (id : ℕ) (s : Server B S R) → IsUntouched id s s
  unfolding IsUntouched
  IsUntouched-refl id s = (refl, λ k. ground arith)

  on_session-alike :
      (id : ℕ) (f : Session B → Session B) (s : Server B S R)
      → on_session id f s ≡ record s {
        sessions = (on_session id f s).sessions;
        detached = (on_session id f s).detached;
      }
  unfolding on_session
  on_session-alike id f s = ground arith

  on_session-IsUntouched :
      (id : ℕ) (f : Session B → Session B) (metrics : Metrics) (s : Server B S R)
      → IsUntouched id s (on_session id f (record s { metrics = metrics }))
  unfolding IsUntouched session_of
  on_session-IsUntouched id f metrics s =
      let s' : Server B S R = record s { metrics = metrics } in
      (grind (arith, on_session-alike id f s'), λ k. session_of-on_session id k f s')

module _ {B S R : Type 0} (w : World B S R) (clock time : ℕ) where
  pub checked-IsUntouched :
      (id : ℕ) (header : FrameHeader) (payload : Text) (now : ℕ) (s : Server B S R)
      (session : Session B)
      → IsUntouched id s (checked w id header payload now s session)
  checked-IsUntouched id header payload now s session = on_session-IsUntouched id _ _ s
