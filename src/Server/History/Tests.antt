-- ===== src/Server/History/Tests.antt =====
-- A server of src/net/server.cpp with the storage in memory, and what the theorems say of its calls.
use gameserver_hide.Base.{
  ℕ, ◌+◌, ◌%◌, ◌≡◌, refl, true, false, some, List, [], ◌∷◌, ◌++◌, false, Text, text,
}
use gameserver_hide.Base.Map.{find, put, emplace}
use gameserver_hide.Net.Frames.{FrameHeader}
use gameserver_hide.Base.TextMap.{same_text, find_text, put_text}
use gameserver_hide.Net.Wire.{
  decode, ◌>>=◌, pure, read_string, read_u16, read_u32, read_span, read_list, read_times,
}
use gameserver_hide.Net.Auth.{generate_token, hex_of_draws, issue_token}
use gameserver_hide.Net.Protocol.Account.{decode_login_request}
use gameserver_hide.Net.Protocol.Dungeon.{decode_dungeon_result_notify}
use gameserver_hide.Net.Protocol.Rewards.{read_reward_items}
use gameserver_hide.Reward.{grant_rewards_detailed, begin_grant, apply_items, total_quantity}
use gameserver_hide.Server.Items.{add_all, add_items}
use gameserver_hide.Server.Registry.{find_record, has_user, register_session}
use gameserver_hide.Server.Accounts.{login}
use gameserver_hide.Session.{SessionConfig, drop_newest, new_session, on_receive}
use gameserver_hide.Party.Types
use gameserver_hide.Dungeon.{playing, get_instance, request_transition}
use gameserver_hide.Inventory.Memory
use gameserver_hide.Inventory.Memory.{Memory, memory_storage}
use gameserver_hide.Server.{SecurityPolicy, admit, check_security}
use gameserver_hide.Server.World.{
  World, Server, new_server, with_error, user_of, session_of, on_session,
}
use gameserver_hide.Server.Dungeons.{dungeon_result, close_instance, record_result}
use gameserver_hide.Server.Handle.{handle_packet, dispatch, create_session, session_user}
use gameserver_hide.Server.Registry.Agreement.{user_in}
use gameserver_hide.Server.History.{Call, packet, create, parties_used, step, run}
use gameserver_hide.Server.History.Contexts.{context_of}
use gameserver_hide.Server.History.Users.{run-one_session}
use gameserver_hide.Server.History.Rewarded.{run-dungeon_result_once}

-- Every token bucket pays, and every draw is a count.
abbrev world : World ℕ Memory ℕ
world = record {
  consume = λ bucket cost now. (bucket, true);
  storage = memory_storage;
  draw_byte = λ r. (r + 1, r % 256);
  draw_seed = λ r. (r + 1, r + 1);
  trace_id = λ r. (r + 1, r ∷ []);
  expand = λ a b. a;
  decimal = λ n. [];
}

abbrev policy : SecurityPolicy
policy = record {
  require_tls = false;
  require_hmac = false;
  enable_replay_protection = false;
  hmac_key = [];
}

abbrev config : SessionConfig
config = record {
  heartbeat_interval = 15000;
  timeout = 45000;
  send_queue_limit_bytes = 1000;
  overflow_policy = drop_newest;
  nonce_cache_limit = 64;
}

abbrev header : ℕ → FrameHeader
header type = record { length = 0; type = type; version = 2 }

abbrev alice : Text
alice = text "al"

-- The user "al" and the password.
abbrev login_payload : Text
login_payload = 0 ∷ 2 ∷ 97 ∷ 108 ∷ 0 ∷ 7 ∷ text "letmein"

abbrev login_calls : List (Call ℕ)
login_calls = create config 0 10 ∷ packet 20 20 1 (header 1) login_payload 20 ∷ []

abbrev logged_in : Server ℕ Memory ℕ
logged_in = run world (new_server Memory.init 0 policy) login_calls

run-one_session_example : (user_in (session_user 1 logged_in) ≡ some alice) × (◌≡◌ {A = ℕ} 1 1)
unfolding context_of user_in run step create_session handle_packet dispatch session_of on_session
    find put emplace find_record admit check_security login decode_login_request decode ◌>>=◌ pure
    read_string read_u16 read_span text same_text has_user find_text put_text register_session
    new_session on_receive generate_token hex_of_draws issue_token
run-one_session_example = run-one_session world login_calls Memory.init 0 policy 1 1 alice refl refl

-- The session 1, without a user.
abbrev connected : Server ℕ Memory ℕ
connected = run world (new_server Memory.init 0 policy) (create config 0 10 ∷ [])

-- The session 1 of "al", in the instance 3 that is being played, with the character 7.
abbrev in_dungeon : Server ℕ Memory ℕ
in_dungeon = record (new_server Memory.init 0 policy) {
  sessions =
      (
        1,
        record (new_session 1 config 0 10) {
          user_context = some (record { user_id = alice; token = [] });
        },
      )
      ∷ [];
  instances = record {
    next_instance_id = 4;
    instances = (3, record { id = 3; party_id = 1; state = playing }) ∷ [];
  };
  session_instances = (1, 3) ∷ [];
  session_characters = (1, 7) ∷ [];
}

-- A clear in 60 seconds without deaths, and two of the item 5.
abbrev result_payload : Text
result_payload = 0 ∷ 1 ∷ 0 ∷ 0 ∷ 0 ∷ 60 ∷ 0 ∷ 0 ∷ 0 ∷ 1 ∷ 0 ∷ 0 ∷ 0 ∷ 5 ∷ 0 ∷ 0 ∷ 0 ∷ 2 ∷ []

-- Somebody uses the party service in between.
abbrev later_calls : List (Call ℕ)
later_calls = parties_used Types.init ∷ create config 0 25 ∷ []

run-dungeon_result_once_example :
    let s = run world (dungeon_result world 20 1 result_payload in_dungeon).0 later_calls in
    ((dungeon_result world 30 1 result_payload s).0 ≡ with_error s)
    × ((dungeon_result world 30 1 result_payload s).1.success ≡ false)
unfolding run step dungeon_result close_instance record_result decode_dungeon_result_notify decode
    ◌>>=◌ pure read_u16 read_u32 read_reward_items read_list read_times user_of session_of find put
    get_instance request_transition grant_rewards_detailed begin_grant apply_items total_quantity
    add_all add_items Memory.add_item new_session create_session
run-dungeon_result_once_example =
    run-dungeon_result_once world 3 in_dungeon 20 1 result_payload later_calls 30 1 result_payload
      refl refl refl

-- Sequence number 5, nonce 77, a signature that nobody checks, and one byte.
abbrev envelope : Text
envelope =
    (0 ∷ 0 ∷ 0 ∷ 5 ∷ 0 ∷ 0 ∷ 0 ∷ 0 ∷ 0 ∷ 0 ∷ 0 ∷ 77 ∷ [])
    ++ (0 ∷ 0 ∷ 0 ∷ 0 ∷ 0 ∷ 0 ∷ 0 ∷ 0 ∷ 0 ∷ 0 ∷ 0 ∷ 0 ∷ 0 ∷ 0 ∷ 0 ∷ 0 ∷ 42 ∷ [])

-- The session 1, with replay protection on.
abbrev guarded : Server ℕ Memory ℕ
guarded = record connected { security_policy = record policy { enable_replay_protection = true } }
