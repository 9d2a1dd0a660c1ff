-- ===== src/Server/History/Users.antt =====
-- The user of each session that a Server of src/net/server.cpp has in its map.
use native.Mathlib.Omega.{arith}
use gameserver_hide.Base.{ℕ, Option, none, some, List, [], ◌∷◌, Text, ◌≡◌, refl}
use gameserver_hide.Base.Map.{find}
use gameserver_hide.Session.{UserContext}
use gameserver_hide.Server.{SecurityPolicy}
use gameserver_hide.Server.World.{World, Server, new_server}
use gameserver_hide.Server.Registry.{find_record}
use gameserver_hide.Server.Registry.Agreement.{user_in, init-IsAgreed, IsAgreed-one_session}
use gameserver_hide.Server.Handle.{session_user}
use gameserver_hide.Server.History.{Call, step, run}
use gameserver_hide.Server.History.Contexts.{context_of, IsRecorded}
use gameserver_hide.Server.History.Recorded.{step-IsRecorded}
use gameserver_hide.Server.History.Exclusive.{IsExclusive, run-IsExclusive, step-IsExclusive}

module _ {B S R : Type 0} (w : World B S R) where
  run-IsRecorded :
      (s : Server B S R) (cs : List (Call B))
      → IsExclusive s
      → IsRecorded s
      → IsRecorded (run w s cs)
  unfolding run IsExclusive
  run-IsRecorded s [] agreed x = x
  run-IsRecorded s (c ∷ cs) agreed x =
      run-IsRecorded (step w s c) cs (step-IsExclusive w s c agreed)
        (step-IsRecorded w s c agreed x)

new_server-IsRecorded :
    (B : Type 0) {S R : Type 0} (inventory : S) (rng : R) (policy : SecurityPolicy)
    → IsRecorded {B = B} (new_server inventory rng policy)
unfolding IsRecorded context_of find
new_server-IsRecorded B inventory rng policy k c e = ground (arith, e)

recorded_user :
    {B S R : Type 0} (s : Server B S R) (k : ℕ) (user_id : Text) (c : Option UserContext)
    → IsRecorded s
    → context_of (find k s.sessions) ≡ c
    → user_in c ≡ some user_id
    → user_in (session_user k s) ≡ some user_id
unfolding find_record IsRecorded user_in
recorded_user s k user_id none x e p = ground (arith, p)
recorded_user s k user_id (some c) x e p = ground (arith, p, x k c e)

-- After any calls of a new server, a session in its map with a user is registered with that user, and
-- two sessions in its map with one user are one session. A session that was removed while its
-- connection lives on is not in the map.
pub run-one_session :
    {B S R : Type 0} (w : World B S R) (cs : List (Call B)) (inventory : S) (rng : R)
    (policy : SecurityPolicy) (a b : ℕ) (user_id : Text)
    → user_in (context_of (find a (run w (new_server inventory rng policy) cs).sessions))
      ≡ some user_id
    → user_in (context_of (find b (run w (new_server inventory rng policy) cs).sessions))
      ≡ some user_id
    → (user_in (session_user a (run w (new_server inventory rng policy) cs)) ≡ some user_id)
      × (a ≡ b)
unfolding find_record IsExclusive
run-one_session w cs inventory rng policy a b user_id p q =
    let s0 = new_server inventory rng policy in
    let s = run w s0 cs in
    let recorded =
      run-IsRecorded w s0 cs init-IsAgreed (new_server-IsRecorded _ inventory rng policy) in
    let known = recorded_user s a user_id _ recorded refl p in
    (
      known,
      IsAgreed-one_session s.registry a b user_id (run-IsExclusive w s0 cs init-IsAgreed) known
          (recorded_user s b user_id _ recorded refl q),
    )
