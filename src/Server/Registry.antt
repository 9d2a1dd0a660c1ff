-- ===== src/Server/Registry.antt =====
-- Server::SessionRegistry of src/net/server.cpp.
pub mod Agreement
use gameserver_hide.Base.{
  ℕ, Bool, true, false, not, ◌&&◌, Option, none, some, [], Text, ◌==◌, if◌then◌else◌,
}
use gameserver_hide.Base.Map.{Map, find, put, erase}
use gameserver_hide.Base.TextMap.{TextMap, find_text, put_text, erase_text}
use gameserver_hide.Session.{UserContext}

pub record SessionRegistry : Type 0 where
  pub records : Map UserContext
  pub active_users : TextMap ℕ

abbrev pub init : SessionRegistry
init = record { records = []; active_users = [] }

-- Whether another session is registered for the user.
abbrev pub held_by_other : Text → ℕ → SessionRegistry → Bool
held_by_other user_id id r = elim (find_text user_id r.active_users) [
  | none ↦ false
  | some existing ↦ not (existing == id)
]

-- The active users without the one that a session had.
abbrev without_previous : ℕ → SessionRegistry → TextMap ℕ
without_previous id r = elim (find id r.records) [
  | none ↦ r.active_users
  | some previous ↦ erase_text previous.user_id r.active_users
]

unfoldable pub register_session : ℕ → UserContext → SessionRegistry → SessionRegistry × Bool
register_session id entry r = if held_by_other entry.user_id id r then (r, false) else (
  record {
    active_users = put_text entry.user_id id (without_previous id r);
    records = put id entry r.records;
  },
  true,
)

unfoldable pub remove_session : ℕ → SessionRegistry → SessionRegistry
remove_session id r = elim (find id r.records) [
  | none ↦ r
  | some entry ↦ record {
    active_users = erase_text entry.user_id r.active_users;
    records = erase id r.records;
  }
]

unfoldable pub find_record : ℕ → SessionRegistry → Option UserContext
find_record id r = find id r.records

unfoldable pub has_user : Text → SessionRegistry → Option ℕ
has_user user_id r = find_text user_id r.active_users
