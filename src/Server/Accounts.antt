-- ===== src/Server/Accounts.antt =====
-- The cases LoginReq, LogoutReq and SessionReconnectReq of Server::handlePacket in src/net/server.cpp.
-- Each takes the session's id, the payload and the time, and returns the response that the packet
-- carries.
use gameserver_hide.Base.{
  ℕ, ◌+◌, ◌%◌, ◌^◌, Bool, true, false, not, Option, none, some, [], Text, text, max, ◌==◌,
  if◌then◌else◌,
}
use gameserver_hide.Base.Map.{Map, find, put, erase}
use gameserver_hide.Base.TextMap.{same_text}
use gameserver_hide.Net.Auth.{generate_token, issue_token, validate_token}
use gameserver_hide.Net.Protocol.Account.{
  LoginResponse, decode_login_request, LogoutResponse, decode_logout_request,
  SessionReconnectRequest, SessionReconnectResponse, decode_session_reconnect_request,
}
use gameserver_hide.Session.{
  Session, UserContext, attach_user_context, clear_user_context, set_last_seq,
}
use gameserver_hide.Party.Membership
use gameserver_hide.Guild
use gameserver_hide.Server.Registry.{register_session, remove_session, has_user}
use gameserver_hide.Server.World.{World, Server, with_error, on_session, detach}

abbrev login_refused : Text → LoginResponse
login_refused message = record { accepted = false; token = []; message = message }

abbrev reconnect_refused : Text → SessionReconnectResponse
reconnect_refused message = record {
  success = false;
  message = message;
  session_id = 0;
  resume_from_seq = 0;
}

-- Whether the registry has the user under another session.
abbrev pub elsewhere : Option ℕ → ℕ → Bool
elsewhere none id = false
elsewhere (some existing) id = not (existing == id)

-- moved[new] = moved[old]; moved.erase(old), where `old` has an entry
unfoldable pub move_key : ℕ → ℕ → Map ℕ → Map ℕ
move_key old new m = elim (find old m) [ none ↦ m | some v ↦ erase old (put new v m) ]

-- lastSeq() of a session that may be missing
abbrev pub last_seq_of : {B : Type 0} → Option (Session B) → ℕ
last_seq_of none = 0
last_seq_of (some session) = session.last_seq

module _ {B S R : Type 0} where
  unfoldable pub login : World B S R → ℕ → Text → ℕ → Server B S R → Server B S R × LoginResponse
  unfolding on_session
  login w id payload now s = elim (decode_login_request payload) [
    | none ↦ (with_error s, login_refused (text "Malformed login payload"))
    | some request ↦
        if not (same_text request.password (text "letmein"))
        then (with_error s, login_refused (text "Invalid credentials"))
        else if elsewhere (has_user request.user_id s.registry) id
        then (with_error s, login_refused (text "User already logged in"))
        else let (rng, token) = generate_token w.draw_byte s.rng in
          let context : UserContext = record { user_id = request.user_id; token = token } in
          let s' : Server B S R = on_session id (attach_user_context context) (record s {
            rng = rng;
            token_service = issue_token token request.user_id now s.token_service;
          }) in
          let (registry, registered) = register_session id context s'.registry in
          if not registered
          then (with_error s', login_refused (text "User already logged in"))
          else (
            record s' { registry = registry },
            record { accepted = true; token = token; message = text "Login accepted" },
          )
  ]

  unfoldable pub logout : ℕ → Text → Server B S R → Server B S R × LogoutResponse
  unfolding on_session
  logout id payload s = elim (decode_logout_request payload) [
    | none ↦ (with_error s, record { success = false; message = text "Malformed logout payload" })
    | some request ↦
        let s' = on_session id clear_user_context s in
        (
          record s' { registry = remove_session id s'.registry },
          record { success = true; message = text "Logout successful" },
        )
  ]

  -- What the session that the user had before hands over to the session `id`, and its end.
  unfoldable pub take_over : ℕ → ℕ → Server B S R → Server B S R
  unfolding move_key detach
  take_over existing id s =
      let moved : Server B S R = elim (find existing s.sessions) [
        | none ↦ s
        | some session ↦ detach existing (record s {
          parties = (Membership.replace_member_session existing id s.parties).0;
          guilds = (Guild.replace_member_session existing id s.guilds).0;
          session_instances = move_key existing id s.session_instances;
          session_characters = move_key existing id s.session_characters;
        })
      ] in
      record moved { registry = remove_session existing moved.registry }

  -- The end of SessionReconnectReq, with the last sequence number of the session before.
  unfoldable pub resume :
      ℕ
      → SessionReconnectRequest
      → Text
      → ℕ
      → Server B S R
      → Server B S R × SessionReconnectResponse
  unfolding on_session
  resume id request user_id previous s =
      let context : UserContext = record { user_id = user_id; token = request.token } in
      let s' : Server B S R = on_session id (attach_user_context context) s in
      let (registry, registered) = register_session id context s'.registry in
      let restored = max request.last_seq previous in
      if not registered
      then (with_error s', reconnect_refused (text "User already logged in"))
      else (
        on_session id (set_last_seq restored) (record s' { registry = registry }),
        record {
          success = true;
          message = text "Reconnect accepted";
          session_id = id;
          resume_from_seq = (restored + 1) % 2 ^ 32;
        },
      )

  -- SessionReconnectReq behind the test of the token.
  unfoldable pub resume_user :
      ℕ → SessionReconnectRequest → Text → Server B S R → Server B S R × SessionReconnectResponse
  unfolding resume take_over
  resume_user id request user_id s = elim (has_user user_id s.registry) [
    | none ↦ resume id request user_id 0 s
    | some existing ↦
        if existing == id
        then resume id request user_id 0 s
        else resume id request user_id (last_seq_of (find existing s.sessions))
            (take_over existing id s)
  ]

  unfoldable pub reconnect : ℕ → Text → ℕ → Server B S R → Server B S R × SessionReconnectResponse
  unfolding resume_user
  reconnect id payload now s = elim (decode_session_reconnect_request payload) [
    | none ↦ (with_error s, reconnect_refused (text "Malformed reconnect payload"))
    | some request ↦
        let (tokens, user) = validate_token request.token now s.token_service in
        let s' : Server B S R = record s { token_service = tokens } in
        elim user [
          | none ↦ (with_error s', reconnect_refused (text "Invalid or expired token"))
          | some user_id ↦ resume_user id request user_id s'
        ]
  ]
