-- ===== src/Server/Dungeons.antt =====
-- The cases DungeonEnterReq and DungeonResultNotify of Server::handlePacket in src/net/server.cpp.
use gameserver_hide.Base.{
  ℕ, ◌+◌, ◌%◌, ◌^◌, Bool, true, false, not, Option, none, some, List, [], ◌∷◌, Text, text, ◌==◌,
  if◌then◌else◌,
}
use gameserver_hide.Base.Map.{find, put, emplace, contains}
use gameserver_hide.Base.TextMap.{same_text}
use gameserver_hide.Net.Protocol.Dungeon.{
  DungeonEnterRequest, DungeonEnterResponse, decode_dungeon_enter_request, DungeonResultNotify,
  DungeonResultResponse, decode_dungeon_result_notify,
}
use gameserver_hide.Net.Protocol.Rewards
use gameserver_hide.Party.Query.{get_party_info}
use gameserver_hide.Dungeon.{
  ready, clear, fail, InstanceRecord, any_session, get_instance, request_transition,
}
use gameserver_hide.Reward
use gameserver_hide.Reward.{GrantResult, completed, duplicate, failed, grant_rewards_detailed}
use gameserver_hide.Server.World.{World, Server, with_error, user_of}
use gameserver_hide.Server.Items.{add_all}

abbrev enter_refused : Text → Text → DungeonEnterResponse
enter_refused code message = record {
  success = false;
  code = code;
  message = message;
  state = 0;
  seed = 0;
}

abbrev result_refused : Text → Text → DungeonResultResponse
result_refused code message = record {
  success = false;
  code = code;
  message = message;
  summary = text "result rejected";
}

-- instance_tickets_ has the ticket of the request.
abbrev same_ticket : Text → Option Text → Bool
same_ticket ticket none = false
same_ticket ticket (some held) = same_text held ticket

-- instance_seeds_[id]
abbrev seed_of : Option ℕ → ℕ
seed_of none = 0
seed_of (some seed) = seed

-- The rewards of the message as those of the reward service.
abbrev pub reward_items : List Rewards.RewardItem → List Reward.RewardItem
reward_items [] = []
reward_items (item ∷ items) =
    record { item_id = item.item_id; quantity = item.count } ∷ reward_items items

module _ {B S R : Type 0} where
  -- DungeonEnterReq behind the lookup of the instance.
  unfoldable pub enter_instance :
      ℕ → DungeonEnterRequest → InstanceRecord → Server B S R → Server B S R × DungeonEnterResponse
  enter_instance id request instance' s =
      if not (same_ticket request.ticket (find request.instance_id s.instance_tickets))
      then (with_error s, enter_refused (text "INVALID_TICKET") (text "Invalid enter ticket"))
      else elim (get_party_info instance'.party_id s.parties) [
        | none ↦ (
          with_error s,
          enter_refused (text "PARTY_NOT_FOUND") (text "Party not found for instance"),
        )
        | some info ↦
            let (instances, moved) =
              request_transition request.instance_id ready s.parties s.instances in
            if not (any_session id info.members)
            then (
              with_error s,
              enter_refused (text "NOT_PARTY_MEMBER") (text "Not authorized for instance"),
            )
            else if not moved
            then (
              with_error (record s { instances = instances }),
              enter_refused (text "INVALID_STATE") (text "Dungeon not ready to enter"),
            )
            else (
              record s {
                instances = instances;
                session_characters = put id request.char_id s.session_characters;
                session_instances = put id request.instance_id s.session_instances;
                instance_seeds = emplace request.instance_id 0 s.instance_seeds;
              },
              record {
                success = true;
                code = text "OK";
                message = text "Dungeon entry accepted";
                state = 1;
                seed = seed_of (find request.instance_id s.instance_seeds);
              },
            )
      ]

  unfoldable pub dungeon_enter : ℕ → Text → Server B S R → Server B S R × DungeonEnterResponse
  unfolding enter_instance
  dungeon_enter id payload s = elim (decode_dungeon_enter_request payload) [
    | none ↦
        (with_error s, enter_refused (text "MALFORMED") (text "Malformed dungeon enter payload"))
    | some request ↦ elim (user_of id s) [
      | none ↦
          (with_error s, enter_refused (text "UNAUTHENTICATED") (text "Authentication required"))
      | some user ↦ elim (get_instance request.instance_id s.instances) [
        | none ↦ (
          with_error s,
          enter_refused (text "INSTANCE_NOT_FOUND") (text "Dungeon instance not found"),
        )
        | some found ↦ enter_instance id request found s
      ]
    ]
  ]

  -- DungeonResultNotify behind the transition of the instance.
  unfoldable pub record_result :
      World B S R
      → ℕ
      → ℕ
      → ℕ
      → DungeonResultNotify
      → Server B S R
      → Server B S R × DungeonResultResponse
  unfolding add_all
  record_result w time id instance_id request s = elim (find id s.session_characters) [
    | none ↦ (
      with_error s,
      result_refused (text "CHAR_NOT_SET") (text "Character not registered for session"),
    )
    | some char_id ↦
        let grant_id = s.next_reward_grant_id in
        let s' : Server B S R = record s { next_reward_grant_id = (grant_id + 1) % 2 ^ 64 } in
        let (granted, result) =
          grant_rewards_detailed grant_id (reward_items request.rewards) (Reward.init 100) in
        let (inventory, ok) =
          add_all w.storage time char_id request.rewards (text "dungeon_reward") s.inventory in
        elim result [
          | duplicate ↦ (
            with_error s',
            result_refused (text "REWARD_DUPLICATE") (text "Reward grant already processed"),
          )
          | failed ↦
              (with_error s', result_refused (text "REWARD_FAILED") (text "Reward grant failed"))
          | completed ↦
              if not ok
              then (
                with_error (record s' { inventory = inventory }),
                result_refused (text "INVENTORY_FAILED") (text "Failed to update inventory"),
              )
              else (
                record s' {
                  inventory = inventory;
                  instance_reward_grants = put instance_id grant_id s.instance_reward_grants;
                },
                record {
                  success = true;
                  code = text "OK";
                  message = text "Dungeon result recorded";
                  summary = text "result recorded";
                },
              )
        ]
  ]

  -- DungeonResultNotify behind the lookups of the session's instance.
  unfoldable pub close_instance :
      World B S R
      → ℕ
      → ℕ
      → ℕ
      → DungeonResultNotify
      → Server B S R
      → Server B S R × DungeonResultResponse
  unfolding record_result
  close_instance w time id instance_id request s =
      let next = if request.result == 1 then clear else fail in
      let (instances, moved) = request_transition instance_id next s.parties s.instances in
      let s' : Server B S R = record s { instances = instances } in
      if contains instance_id s.instance_reward_grants
      then (
        with_error s,
        result_refused (text "REWARD_DUPLICATE") (text "Reward grant already processed"),
      )
      else if not moved
      then (
        with_error s',
        result_refused (text "INVALID_STATE") (text "Dungeon state transition rejected"),
      )
      else record_result w time id instance_id request s'

  unfoldable pub dungeon_result :
      World B S R → ℕ → ℕ → Text → Server B S R → Server B S R × DungeonResultResponse
  unfolding close_instance
  dungeon_result w time id payload s = elim (decode_dungeon_result_notify payload) [
    | none ↦
        (with_error s, result_refused (text "MALFORMED") (text "Malformed dungeon result payload"))
    | some request ↦ elim (user_of id s) [
      | none ↦
          (with_error s, result_refused (text "UNAUTHENTICATED") (text "Authentication required"))
      | some user ↦ elim (find id s.session_instances) [
        | none ↦
            (with_error s, result_refused (text "NO_INSTANCE") (text "No active dungeon instance"))
        | some instance_id ↦ elim (get_instance instance_id s.instances) [
          | none ↦ (
            with_error s,
            result_refused (text "INSTANCE_NOT_FOUND") (text "Dungeon instance missing"),
          )
          | some found ↦ close_instance w time id instance_id request s
        ]
      ]
    ]
  ]
