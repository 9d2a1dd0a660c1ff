-- ===== src/Server/Registry/Agreement.antt =====
-- The two maps of Server::SessionRegistry in src/net/server.cpp.
use native.Mathlib.Omega.{arith}
use gameserver_hide.Base.{ℕ, false, Option, none, some, Text, ◌≡◌, refl, ◌==◌, if◌then◌else◌}
use gameserver_hide.Base.Map.{find, put, erase, find-put, find-erase}
use gameserver_hide.Base.TextMap.{
  TextMap, find_text, put_text, erase_text, same_text_iff, find_text-put_text, find_text-erase_text,
}
use gameserver_hide.Session.{UserContext}
use gameserver_hide.Server.Registry.{
  SessionRegistry, init, held_by_other, register_session, remove_session,
}

-- The user of a record.
unfoldable pub user_in : Option UserContext → Option Text
user_in none = none
user_in (some c) = some c.user_id

-- The records and the active users are inverse to each other.
pub record IsAgreed (r : SessionRegistry) : Type 0 where
  pub active :
      (id : ℕ) (u : Text)
      → user_in (find id r.records) ≡ some u
      → find_text u r.active_users ≡ some id
  pub recorded :
      (u : Text) (id : ℕ)
      → find_text u r.active_users ≡ some id
      → user_in (find id r.records) ≡ some u

pub init-IsAgreed : IsAgreed init
unfolding find find_text user_in
init-IsAgreed = record { active = λ id u p. ground arith; recorded = λ u id p. ground arith }

-- The active users with one left out, where `found` is its record.
without : Option UserContext → TextMap ℕ → TextMap ℕ
without none users = users
without (some c) users = erase_text c.user_id users

-- Without the user of the session `id`, exactly the entries of `id` are gone.
find_text-without :
    (id : ℕ) (u : Text) (r : SessionRegistry) (found : Option UserContext)
    → find id r.records ≡ found
    → IsAgreed r
    → find_text u (without found r.active_users) ≡ (elim (find_text u r.active_users) [
      | none ↦ none
      | some k ↦ if k == id then none else some k
    ])
unfolding without user_in
find_text-without id u r none e agreed = ground (arith, agreed.recorded u id)
find_text-without id u r (some c) e agreed = ground (
  arith,
  agreed.recorded u id,
  agreed.active id c.user_id,
  find_text-erase_text c.user_id u r.active_users,
  same_text_iff c.user_id u,
)

-- The step of registerSession behind its test.
register-IsAgreed :
    (id : ℕ) (entry : UserContext) (r : SessionRegistry) (found : Option UserContext)
    → find id r.records ≡ found
    → held_by_other entry.user_id id r ≡ false
    → IsAgreed r
    → IsAgreed (record {
      active_users = put_text entry.user_id id (without found r.active_users);
      records = put id entry r.records;
    })
unfolding user_in
register-IsAgreed id entry r found e free agreed =
    let users = without found r.active_users in
    record {
      active = λ k u p. ground (
        arith,
        agreed.active k u,
        find-put id k entry r.records,
        find_text-put_text entry.user_id u id users,
        find_text-without id u r found e agreed,
        same_text_iff entry.user_id u,
      );
      recorded = λ u k p. ground (
        arith,
        agreed.recorded u k,
        find-put id k entry r.records,
        find_text-put_text entry.user_id u id users,
        find_text-without id u r found e agreed,
        same_text_iff entry.user_id u,
      );
    }

register_session-IsAgreed_at :
    (id : ℕ) (entry : UserContext) (r : SessionRegistry) (found : Option UserContext)
    → find id r.records ≡ found
    → IsAgreed r
    → IsAgreed (register_session id entry r).0
unfolding register_session without
register_session-IsAgreed_at id entry r found e agreed =
    ground (arith, register-IsAgreed id entry r found e)

pub register_session-IsAgreed :
    (id : ℕ) (entry : UserContext) (r : SessionRegistry)
    → IsAgreed r
    → IsAgreed (register_session id entry r).0
register_session-IsAgreed id entry r =
    register_session-IsAgreed_at id entry r (find id r.records) refl

remove-IsAgreed :
    (id : ℕ) (r : SessionRegistry) (found : Option UserContext)
    → find id r.records ≡ found
    → IsAgreed r
    → IsAgreed
        (record { active_users = without found r.active_users; records = erase id r.records })
unfolding user_in
remove-IsAgreed id r found e agreed = record {
  active = λ k u p. ground (
    arith,
    agreed.active k u,
    find-erase id k r.records,
    find_text-without id u r found e agreed,
  );
  recorded = λ u k p. ground (
    arith,
    agreed.recorded u k,
    find-erase id k r.records,
    find_text-without id u r found e agreed,
  );
}

remove_session-IsAgreed_at :
    (id : ℕ) (r : SessionRegistry) (found : Option UserContext)
    → find id r.records ≡ found
    → IsAgreed r
    → IsAgreed (remove_session id r)
unfolding remove_session without
remove_session-IsAgreed_at id r found e agreed = ground (arith, remove-IsAgreed id r found e)

pub remove_session-IsAgreed :
    (id : ℕ) (r : SessionRegistry) → IsAgreed r → IsAgreed (remove_session id r)
remove_session-IsAgreed id r = remove_session-IsAgreed_at id r (find id r.records) refl

remove_session-frees_at :
    (id : ℕ) (u : Text) (r : SessionRegistry) (found : Option UserContext)
    → find id r.records ≡ found
    → IsAgreed r
    → find_text u r.active_users ≡ some id
    → find_text u (remove_session id r).active_users ≡ none
unfolding remove_session without
remove_session-frees_at id u r found e agreed held =
    ground (arith, find_text-without id u r found e agreed)

-- The user of a session that is removed is free.
pub remove_session-frees :
    (id : ℕ) (u : Text) (r : SessionRegistry)
    → IsAgreed r
    → find_text u r.active_users ≡ some id
    → find_text u (remove_session id r).active_users ≡ none
remove_session-frees id u r = remove_session-frees_at id u r (find id r.records) refl

-- Two sessions with one user are the same session.
pub IsAgreed-one_session :
    (r : SessionRegistry) (a b : ℕ) (u : Text)
    → IsAgreed r
    → user_in (find a r.records) ≡ some u
    → user_in (find b r.records) ≡ some u
    → a ≡ b
IsAgreed-one_session r a b u agreed p q = ground (arith, agreed.active a u p, agreed.active b u q)
