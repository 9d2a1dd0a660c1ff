-- ===== src/Server/History/Contexts.antt =====
-- The users of the sessions in the map of a Server of src/net/server.cpp, against its registry.
use native.Mathlib.Omega.{arith}
use gameserver_hide.Base.{
  ℕ, true, false, Option, none, some, ◌==◌, ◌≡◌, refl, ap, sym, ◌∙◌, if◌then◌else◌,
}
use gameserver_hide.Base.Map.{Map, find, find-put, find-erase, find-emplace, emplace}
use gameserver_hide.Session.{
  Session, SessionConfig, UserContext, new_session, attach_user_context, clear_user_context,
}
use gameserver_hide.Server.World.{Server, session_of, on_session, detach}
use gameserver_hide.Server.Registry
use gameserver_hide.Server.Registry.{SessionRegistry, held_by_other, has_user}
use gameserver_hide.Server.History.Frames
use gameserver_hide.Server.History.Objects.{marks}

-- The user context of a session that may be missing.
unfoldable pub context_of : {B : Type 0} → Option (Session B) → Option UserContext
context_of none = none
context_of (some session) = session.user_context

-- A session of the map that has a user is recorded with it.
unfoldable pub IsRecorded : {B S R : Type 0} → Server B S R → Type 0
IsRecorded s =
    (k : ℕ) (c : UserContext)
    → context_of (find k s.sessions) ≡ some c
    → find k s.registry.records ≡ some c

find-register_session :
    (id k : ℕ) (c : UserContext) (r : SessionRegistry)
    → held_by_other c.user_id id r ≡ false
    → find k (Registry.register_session id c r).0.records
      ≡ (if id == k then some c else find k r.records)
unfolding Registry.register_session
find-register_session id k c r free = ground (arith, find-put id k c r.records)

find-remove_session :
    (id k : ℕ) (r : SessionRegistry)
    → find k (Registry.remove_session id r).records ≡ (if id == k then none else find k r.records)
unfolding Registry.remove_session
find-remove_session id k r = ground (arith, find-erase id k r.records)

pub register_session-free :
    (id : ℕ) (c : UserContext) (r : SessionRegistry)
    → held_by_other c.user_id id r ≡ false
    → (Registry.register_session id c r).1 ≡ true
unfolding Registry.register_session
register_session-free id c r free = ground arith

pub context_of-marks :
    {B : Type 0} (a b : Option (Session B)) → marks a ≡ marks b → context_of a ≡ context_of b
unfolding context_of marks
context_of-marks none none e = refl
context_of-marks none (some b) e = ground (arith, e)
context_of-marks (some a) none e = ground (arith, e)
context_of-marks (some a) (some b) e = ground (arith, e)

pub context_of-emplace :
    {B : Type 0} (id k : ℕ) (config : SessionConfig) (bucket : B) (now : ℕ) (m : Map (Session B))
    → context_of (find k (emplace id (new_session id config bucket now) m)) ≡ context_of (find k m)
unfolding context_of new_session
context_of-emplace id k config bucket now m =
    grind (arith, find-emplace id k (new_session id config bucket now) m)

module _ {B S R : Type 0} where
  context_of-on_session :
      (id k : ℕ) (f : Session B → Session B) (s : Server B S R)
      → context_of (find k (on_session id f s).sessions) ≡ (
          if id == k
          then elim (find id s.sessions) [ none ↦ none | some x ↦ (f x).user_context ]
          else context_of (find k s.sessions))
  unfolding context_of on_session
  context_of-on_session id k f s = grind (arith, find-put)

  context_of-detach :
      (id k : ℕ) (s : Server B S R)
      → context_of (find k (detach id s).sessions)
        ≡ (if id == k then none else context_of (find k s.sessions))
  unfolding context_of detach
  context_of-detach id k s = grind (arith, find-erase)

  -- Two servers whose maps show the same users, and with one registry.
  pub same_users :
      (s s' : Server B S R)
      → ((k : ℕ) → context_of (find k s'.sessions) ≡ context_of (find k s.sessions))
      → s'.registry ≡ s.registry
      → IsRecorded s
      → IsRecorded s'
  unfolding IsRecorded
  same_users s s' p q x = λ k c e. ap (λ r. find k r.records) q ∙ x k c (sym (p k) ∙ e)

  -- A change of a session object that leaves its user.
  pub on_session-IsRecorded :
      (id : ℕ) (f : Session B → Session B) (s : Server B S R)
      → ((x : Session B) → (f x).user_context ≡ x.user_context)
      → IsRecorded s
      → IsRecorded (on_session id f s)
  unfolding context_of
  on_session-IsRecorded id f s keeps =
      same_users s (on_session id f s) (λ k. alike k (find id s.sessions) refl)
        (ap (λ g. g.0) (Frames.on_session-guarded id f s))
    where
      alike :
          (k : ℕ) (found : Option (Session B))
          → find id s.sessions ≡ found
          → context_of (find k (on_session id f s).sessions) ≡ context_of (find k s.sessions)
      alike k none e = ground (arith, e, context_of-on_session id k f s)
      alike k (some x) e = ground (arith, e, keeps x, context_of-on_session id k f s)

  -- A session object behind the checks, which leave its user.
  pub replaced-IsRecorded :
      (id : ℕ) (session session' : Session B) (s : Server B S R)
      → session_of id s ≡ some session
      → session'.user_context ≡ session.user_context
      → IsRecorded s
      → IsRecorded (on_session id (λ _. session') s)
  unfolding context_of session_of
  replaced-IsRecorded id session session' s p same =
      same_users s (on_session id (λ _. session') s) (λ k. alike k (find id s.sessions) refl)
        (ap (λ g. g.0) (Frames.on_session-guarded id (λ _. session') s))
    where
      alike :
          (k : ℕ) (found : Option (Session B))
          → find id s.sessions ≡ found
          → context_of (find k (on_session id (λ _. session') s).sessions)
            ≡ context_of (find k s.sessions)
      alike k none e = ground (arith, e, context_of-on_session id k (λ _. session') s)
      alike k (some x) e = ground (arith, e, p, same, context_of-on_session id k (λ _. session') s)

  -- A session that gets a user which no other session holds.
  pub attached-IsRecorded :
      (id : ℕ) (c : UserContext) (s : Server B S R)
      → held_by_other c.user_id id s.registry ≡ false
      → IsRecorded s
      → IsRecorded (record (on_session id (attach_user_context c) s) {
        registry = (Registry.register_session id c s.registry).0;
      })
  unfolding IsRecorded
  attached-IsRecorded id c s free x = λ k c' p. ground (
    arith,
    p,
    context_of-on_session id k (attach_user_context c) s,
    find-register_session id k c s.registry free,
    x k c',
  )

  pub cleared-IsRecorded :
      (id : ℕ) (s : Server B S R)
      → IsRecorded s
      → IsRecorded (record (on_session id clear_user_context s) {
        registry = Registry.remove_session id s.registry;
      })
  unfolding IsRecorded
  cleared-IsRecorded id s x = λ k c' p. ground (
    arith,
    p,
    context_of-on_session id k clear_user_context s,
    find-remove_session id k s.registry,
    x k c',
  )

  -- A session that leaves the map and the registry.
  pub gone-IsRecorded :
      (id : ℕ) (s : Server B S R)
      → IsRecorded s
      → IsRecorded (record (detach id s) { registry = Registry.remove_session id s.registry })
  unfolding IsRecorded
  gone-IsRecorded id s x = λ k c' p.
      ground (arith, p, context_of-detach id k s, find-remove_session id k s.registry, x k c')
