-- ===== src/Server/Handle.antt =====
-- handlePacket of src/net/server.cpp as a whole, and the operations on the sessions around it. A packet
-- comes from a session object that createSession returned; where there is none of the id, nothing is done.
-- `clock` is the time at which a notification is queued, `time` that of the system clock.
use gameserver_hide.Base.{
  ℕ, ◌+◌, ◌%◌, ◌^◌, Bool, true, false, Option, none, some, List, [], ◌∷◌, Text, length, ◌==◌, ◌≡◌,
  refl, if◌then◌else◌,
}
use gameserver_hide.Base.Map.{Map, find, erase, emplace}
use gameserver_hide.Net.Frames.{FrameHeader, encode}
use gameserver_hide.Net.Protocol.Account.{
  encode_login_response, encode_logout_response, encode_session_reconnect_response,
}
use gameserver_hide.Net.Protocol.Match.{encode_match_found_notify}
use gameserver_hide.Net.Protocol.Dungeon.{
  encode_dungeon_enter_response, encode_dungeon_result_response,
}
use gameserver_hide.Net.Protocol.Inventory.{encode_inventory_update_response}
use gameserver_hide.Net.Protocol.Guild.{
  encode_guild_create_response, encode_guild_join_response, encode_guild_leave_response,
}
use gameserver_hide.Net.Protocol.Chat.{encode_chat_send_response}
use gameserver_hide.Session
use gameserver_hide.Session.{Session, SessionConfig, UserContext, new_session}
use gameserver_hide.Party.Membership
use gameserver_hide.Guild
use gameserver_hide.Server.{refused, answered, passed, admit}
use gameserver_hide.Server.Registry.{find_record}
use gameserver_hide.Server.Registry
use gameserver_hide.Server.World.{World, Server, with_error, session_of, on_session, detach}
use gameserver_hide.Server.Accounts.{login, logout, reconnect}
use gameserver_hide.Server.Social.{with_guilds, guild_create, guild_join, guild_leave, chat_send}
use gameserver_hide.Server.Items.{inventory_update}
use gameserver_hide.Server.Dungeons.{dungeon_enter, dungeon_result}
use gameserver_hide.Server.Matches.{match_request}

-- The reply of a handler, as the payload of a frame.
abbrev reply : {T R : Type 0} → ℕ → ℕ → (R → Text) → T × R → T × Option Text
reply type version encode_response (s, response) =
    (s, some (encode type version (encode_response response)))

-- Each session's tick, and the ids of those that it ends.
unfoldable pub tick_sessions : {B : Type 0} → ℕ → Map (Session B) → Map (Session B) × List ℕ
tick_sessions now [] = ([], [])
tick_sessions now ((id, session) ∷ sessions) =
    let (session', alive) = Session.tick now session in
    let (sessions', ended) = tick_sessions now sessions in
    ((id, session') ∷ sessions', if alive then ended else id ∷ ended)

-- A property of both branches of a test.
either {ℓ} :
    {T R : Type 0} (P : T → Type ℓ) (b : Bool) (x y : T × R)
    → P x.0
    → P y.0
    → P (if b then x else y).0
either P true x y p q = p
either P false x y p q = q

either_on {ℓ} :
    {T R : Type 0} (P : T → Type ℓ) (b : Bool) (x y : T × R)
    → (b ≡ true → P x.0)
    → P y.0
    → P (if b then x else y).0
either_on P true x y p q = p refl
either_on P false x y p q = q

module _ {B S R : Type 0} where
  -- The switch over the type of the packet.
  unfoldable pub dispatch :
      World B S R → ℕ → ℕ → ℕ → FrameHeader → Text → ℕ → Server B S R → Server B S R × Option Text
  dispatch w clock time id header payload now s =
      let version = header.version in
      if header.type == 1
      then reply 2 version encode_login_response (login w id payload now s)
      else if header.type == 4
      then reply 5 version encode_logout_response (logout id payload s)
      else if header.type == 6
      then reply 7 version encode_session_reconnect_response (reconnect id payload now s)
      else if header.type == 400
      then reply 401 version encode_match_found_notify
          (match_request w clock version id payload now s)
      else if header.type == 500
      then reply 501 version encode_dungeon_enter_response (dungeon_enter id payload s)
      else if header.type == 502
      then reply 503 version encode_dungeon_result_response (dungeon_result w time id payload s)
      else if header.type == 600
      then reply 601 version encode_inventory_update_response (inventory_update w time id payload s)
      else if header.type == 200
      then reply 201 version encode_guild_create_response (guild_create w clock id payload s)
      else if header.type == 202
      then reply 203 version encode_guild_join_response (guild_join w clock id payload s)
      else if header.type == 204
      then reply 205 version encode_guild_leave_response (guild_leave w clock id payload s)
      else if header.type == 300
      then reply 301 version encode_chat_send_response (chat_send w clock id payload s)
      else (with_error s, none)

  -- What holds behind each handler holds behind the switch.
  pub dispatch_lem {ℓ} :
      (P : Server B S R → Type ℓ) (w : World B S R) (clock time id : ℕ) (header : FrameHeader)
      (payload : Text) (now : ℕ) (s : Server B S R)
      → P (login w id payload now s).0
      → P (logout id payload s).0
      → ((header.type == 6) ≡ true → P (reconnect id payload now s).0)
      → P (match_request w clock header.version id payload now s).0
      → P (dungeon_enter id payload s).0
      → P (dungeon_result w time id payload s).0
      → P (inventory_update w time id payload s).0
      → P (guild_create w clock id payload s).0
      → P (guild_join w clock id payload s).0
      → P (guild_leave w clock id payload s).0
      → P (chat_send w clock id payload s).0
      → P (with_error s)
      → P (dispatch w clock time id header payload now s).0
  unfolding dispatch
  dispatch_lem P w clock time id header payload now s c0 c1 c2 c3 c4 c5 c6 c7 c8 c9 c10 c11 =
      either P (header.type == 1) _ _ c0 (
        either P (header.type == 4) _ _ c1 (
          either_on P (header.type == 6) _ _ c2 (
            either P (header.type == 400) _ _ c3 (
              either P (header.type == 500) _ _ c4 (
                either P (header.type == 502) _ _ c5 (
                  either P (header.type == 600) _ _ c6 (
                    either P (header.type == 200) _ _ c7 (
                      either P (header.type == 202) _ _ c8 (
                        either P (header.type == 204) _ _ c9
                          (either P (header.type == 300) _ _ c10 c11))))))))))

  -- The packet of a session object: the checks, then the switch.
  unfoldable pub handle_packet :
      World B S R → ℕ → ℕ → ℕ → FrameHeader → Text → ℕ → Server B S R → Server B S R × Option Text
  unfolding session_of on_session dispatch
  handle_packet w clock time id header payload now s = elim (session_of id s) [
    | none ↦ (s, none)
    | some session ↦
        let ((metrics, session'), verdict) =
          admit s.security_policy w.decimal header payload now (s.metrics, session) in
        let s' : Server B S R = on_session id (λ _. session') (record s { metrics = metrics }) in
        elim verdict [
          | refused ↦ (s', none)
          | answered frame ↦ (s', some frame)
          | passed inner ↦ dispatch w clock time id header inner now s'
        ]
  ]

  unfoldable pub create_session : SessionConfig → B → ℕ → Server B S R → Server B S R × ℕ
  create_session config bucket now s = (
    record s {
      next_id = (s.next_id + 1) % 2 ^ 64;
      sessions = emplace s.next_id (new_session s.next_id config bucket now) s.sessions;
    },
    s.next_id,
  )

  unfoldable pub remove_session : World B S R → ℕ → ℕ → Server B S R → Server B S R
  unfolding detach
  remove_session w clock id s =
      let gone = detach id s in
      let s' : Server B S R = record gone {
        registry = Registry.remove_session id s.registry;
        parties = (Membership.remove_member id s.parties).0;
      } in
      let s'' = with_guilds w clock (Guild.remove_member id s.guilds).0 s' in
      record s'' {
        session_instances = erase id s.session_instances;
        session_characters = erase id s.session_characters;
      }

  unfoldable pub remove_all : World B S R → ℕ → List ℕ → Server B S R → Server B S R
  unfolding remove_session
  remove_all w clock [] s = s
  remove_all w clock (id ∷ ids) s = remove_all w clock ids (remove_session w clock id s)

  unfoldable pub tick : World B S R → ℕ → ℕ → Server B S R → Server B S R
  unfolding tick_sessions remove_all
  tick w clock now s =
      let (sessions, ended) = tick_sessions now s.sessions in
      remove_all w clock ended (record s { sessions = sessions })

  unfoldable pub force_disconnect : World B S R → ℕ → ℕ → Server B S R → Server B S R × Bool
  unfolding remove_session
  force_disconnect w clock id s = elim (find id s.sessions) [
    | none ↦ (with_error s, false)
    | some session ↦ (remove_session w clock id s, true)
  ]

  abbrev pub session_count : Server B S R → ℕ
  session_count s = length s.sessions

  -- sessionUser
  abbrev pub session_user : ℕ → Server B S R → Option UserContext
  session_user id s = find_record id s.registry
