-- ===== src/Chat.antt =====
-- src/chat/chat.h and chat.cpp. As for the parties, the calls of the event sink are kept in `sent`.
use gameserver_hide.Base.{
  ℕ, Bool, true, false, not, ◌||◌, List, [], ◌++◌, map, Text, ◌==◌, if◌then◌else◌, length,
}

pub data ChatChannel : Type 0 where
  global party : ChatChannel

pub record ChatMessage : Type 0 where
  pub channel : ChatChannel
  pub party_id : ℕ
  pub sender_session_id : ℕ
  pub sender_user_id : Text
  pub text : Text

pub record ChatService : Type 0 where
  pub event_sink : Bool
  pub sent : List (ℕ × ChatMessage)

abbrev pub init : ChatService
init = record { event_sink = false; sent = [] }

unfoldable pub set_event_sink : Bool → ChatService → ChatService
set_event_sink sink c = record c { event_sink = sink }

unfoldable pub emit_to_recipients : ChatMessage → List ℕ → ChatService → ChatService
emit_to_recipients message recipients c =
    if not c.event_sink
    then c
    else record c { sent = c.sent ++ map (λ id. (id, message)) recipients }

unfoldable pub send_global : ℕ → Text → Text → List ℕ → ChatService → ChatService × Bool
unfolding emit_to_recipients
send_global sender user_id message recipients c =
    if not c.event_sink || (length message == 0 || length recipients == 0) then (c, false) else (
      emit_to_recipients
          (record {
            channel = global;
            party_id = 0;
            sender_session_id = sender;
            sender_user_id = user_id;
            text = message;
          })
          recipients c,
      true,
    )

unfoldable pub send_party : ℕ → Text → ℕ → Text → List ℕ → ChatService → ChatService × Bool
unfolding emit_to_recipients
send_party sender user_id party_id message recipients c =
    if not c.event_sink || (length message == 0 || length recipients == 0) then (c, false) else (
      emit_to_recipients
          (record {
            channel = party;
            party_id = party_id;
            sender_session_id = sender;
            sender_user_id = user_id;
            text = message;
          })
          recipients c,
      true,
    )
