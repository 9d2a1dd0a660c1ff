-- ===== src/Net/Protocol/Packet.antt =====
-- The packets of src/net/protocol.h: each message with its `PacketType`, and the choice of the
-- decoder by that number.
pub mod Roundtrip
use gameserver_hide.Base.{ℕ, ◌≡◌, refl, Option, some, none, Text, ◌==◌, if◌then◌else◌}
use mathlib.Core.Option
use gameserver_hide.Net.Protocol.Account.{
  LoginRequest, FitsLoginRequest, encode_login_request, decode_login_request, login_request-IsExact,
  LoginResponse, FitsLoginResponse, encode_login_response, decode_login_response,
  login_response-IsExact, VersionReject, FitsVersionReject, encode_version_reject,
  decode_version_reject, version_reject-IsExact, LogoutRequest, FitsLogoutRequest,
  encode_logout_request, decode_logout_request, logout_request-IsExact, LogoutResponse,
  FitsLogoutResponse, encode_logout_response, decode_logout_response, logout_response-IsExact,
  SessionReconnectRequest, FitsSessionReconnectRequest, encode_session_reconnect_request,
  decode_session_reconnect_request, session_reconnect_request-IsExact, SessionReconnectResponse,
  FitsSessionReconnectResponse, encode_session_reconnect_response,
  decode_session_reconnect_response, session_reconnect_response-IsExact,
}
use gameserver_hide.Net.Protocol.Guild.{
  GuildCreateRequest, FitsGuildCreateRequest, encode_guild_create_request,
  decode_guild_create_request, guild_create_request-IsExact, GuildCreateResponse,
  FitsGuildCreateResponse, encode_guild_create_response, decode_guild_create_response,
  guild_create_response-IsExact, GuildJoinRequest, FitsGuildJoinRequest, encode_guild_join_request,
  decode_guild_join_request, guild_join_request-IsExact, GuildJoinResponse, FitsGuildJoinResponse,
  encode_guild_join_response, decode_guild_join_response, guild_join_response-IsExact,
  GuildLeaveRequest, FitsGuildLeaveRequest, encode_guild_leave_request, decode_guild_leave_request,
  guild_leave_request-IsExact, GuildLeaveResponse, FitsGuildLeaveResponse,
  encode_guild_leave_response, decode_guild_leave_response, guild_leave_response-IsExact,
  GuildEvent, FitsGuildEvent, encode_guild_event, decode_guild_event, guild_event-IsExact,
}
use gameserver_hide.Net.Protocol.Party.{
  PartyCreateRequest, FitsPartyCreateRequest, encode_party_create_request,
  decode_party_create_request, party_create_request-IsExact, PartyCreateResponse,
  FitsPartyCreateResponse, encode_party_create_response, decode_party_create_response,
  party_create_response-IsExact, PartyDisbandRequest, FitsPartyDisbandRequest,
  encode_party_disband_request, decode_party_disband_request, party_disband_request-IsExact,
  PartyDisbandResponse, FitsPartyDisbandResponse, encode_party_disband_response,
  decode_party_disband_response, party_disband_response-IsExact, PartyEvent, FitsPartyEvent,
  encode_party_event, decode_party_event, party_event-IsExact,
}
use gameserver_hide.Net.Protocol.Invite.{
  PartyInviteRequest, FitsPartyInviteRequest, encode_party_invite_request,
  decode_party_invite_request, party_invite_request-IsExact, PartyInviteResponse,
  FitsPartyInviteResponse, encode_party_invite_response, decode_party_invite_response,
  party_invite_response-IsExact, PartyAcceptRequest, FitsPartyAcceptRequest,
  encode_party_accept_request, decode_party_accept_request, party_accept_request-IsExact,
  PartyAcceptResponse, FitsPartyAcceptResponse, encode_party_accept_response,
  decode_party_accept_response, party_accept_response-IsExact,
}
use gameserver_hide.Net.Protocol.Match.{
  MatchRequest, FitsMatchRequest, encode_match_request, decode_match_request, match_request-IsExact,
  MatchFoundNotify, FitsMatchFoundNotify, encode_match_found_notify, decode_match_found_notify,
  match_found_notify-IsExact,
}
use gameserver_hide.Net.Protocol.Dungeon.{
  DungeonEnterRequest, FitsDungeonEnterRequest, encode_dungeon_enter_request,
  decode_dungeon_enter_request, dungeon_enter_request-IsExact, DungeonEnterResponse,
  FitsDungeonEnterResponse, encode_dungeon_enter_response, decode_dungeon_enter_response,
  dungeon_enter_response-IsExact, DungeonResultNotify, FitsDungeonResultNotify,
  encode_dungeon_result_notify, decode_dungeon_result_notify, dungeon_result_notify-IsExact,
  DungeonResultResponse, FitsDungeonResultResponse, encode_dungeon_result_response,
  decode_dungeon_result_response, dungeon_result_response-IsExact,
}
use gameserver_hide.Net.Protocol.Inventory.{
  InventoryUpdateNotify, FitsInventoryUpdateNotify, encode_inventory_update_notify,
  decode_inventory_update_notify, inventory_update_notify-IsExact, InventoryUpdateResponse,
  FitsInventoryUpdateResponse, encode_inventory_update_response, decode_inventory_update_response,
  inventory_update_response-IsExact,
}
use gameserver_hide.Net.Protocol.Chat.{
  ChatSendRequest, FitsChatSendRequest, encode_chat_send_request, decode_chat_send_request,
  chat_send_request-IsExact, ChatSendResponse, FitsChatSendResponse, encode_chat_send_response,
  decode_chat_send_response, chat_send_response-IsExact, ChatEvent, FitsChatEvent,
  encode_chat_event, decode_chat_event, chat_event-IsExact,
}
use gameserver_hide.Net.Wire.Exact.{IsExact, IsExact-map}

pub data Packet : Type 0 where
  login_req : LoginRequest → Packet
  login_res : LoginResponse → Packet
  version_reject : VersionReject → Packet
  logout_req : LogoutRequest → Packet
  logout_res : LogoutResponse → Packet
  session_reconnect_req : SessionReconnectRequest → Packet
  session_reconnect_res : SessionReconnectResponse → Packet
  guild_create_req : GuildCreateRequest → Packet
  guild_create_res : GuildCreateResponse → Packet
  guild_join_req : GuildJoinRequest → Packet
  guild_join_res : GuildJoinResponse → Packet
  guild_leave_req : GuildLeaveRequest → Packet
  guild_leave_res : GuildLeaveResponse → Packet
  guild_event : GuildEvent → Packet
  party_create_req : PartyCreateRequest → Packet
  party_create_res : PartyCreateResponse → Packet
  party_disband_req : PartyDisbandRequest → Packet
  party_disband_res : PartyDisbandResponse → Packet
  party_event : PartyEvent → Packet
  party_invite_req : PartyInviteRequest → Packet
  party_invite_res : PartyInviteResponse → Packet
  party_accept_req : PartyAcceptRequest → Packet
  party_accept_res : PartyAcceptResponse → Packet
  match_req : MatchRequest → Packet
  match_found_notify : MatchFoundNotify → Packet
  dungeon_enter_req : DungeonEnterRequest → Packet
  dungeon_enter_res : DungeonEnterResponse → Packet
  dungeon_result_notify : DungeonResultNotify → Packet
  dungeon_result_res : DungeonResultResponse → Packet
  inventory_update_notify : InventoryUpdateNotify → Packet
  inventory_update_res : InventoryUpdateResponse → Packet
  chat_send_req : ChatSendRequest → Packet
  chat_send_res : ChatSendResponse → Packet
  chat_event : ChatEvent → Packet

unfoldable pub packet_type : Packet → ℕ
packet_type (login_req m) = 1
packet_type (login_res m) = 2
packet_type (version_reject m) = 3
packet_type (logout_req m) = 4
packet_type (logout_res m) = 5
packet_type (session_reconnect_req m) = 6
packet_type (session_reconnect_res m) = 7
packet_type (guild_create_req m) = 200
packet_type (guild_create_res m) = 201
packet_type (guild_join_req m) = 202
packet_type (guild_join_res m) = 203
packet_type (guild_leave_req m) = 204
packet_type (guild_leave_res m) = 205
packet_type (guild_event m) = 206
packet_type (party_create_req m) = 100
packet_type (party_create_res m) = 101
packet_type (party_disband_req m) = 106
packet_type (party_disband_res m) = 107
packet_type (party_event m) = 108
packet_type (party_invite_req m) = 102
packet_type (party_invite_res m) = 103
packet_type (party_accept_req m) = 104
packet_type (party_accept_res m) = 105
packet_type (match_req m) = 400
packet_type (match_found_notify m) = 401
packet_type (dungeon_enter_req m) = 500
packet_type (dungeon_enter_res m) = 501
packet_type (dungeon_result_notify m) = 502
packet_type (dungeon_result_res m) = 503
packet_type (inventory_update_notify m) = 600
packet_type (inventory_update_res m) = 601
packet_type (chat_send_req m) = 300
packet_type (chat_send_res m) = 301
packet_type (chat_event m) = 302

unfoldable pub encode_packet : Packet → Text
encode_packet (login_req m) = encode_login_request m
encode_packet (login_res m) = encode_login_response m
encode_packet (version_reject m) = encode_version_reject m
encode_packet (logout_req m) = encode_logout_request m
encode_packet (logout_res m) = encode_logout_response m
encode_packet (session_reconnect_req m) = encode_session_reconnect_request m
encode_packet (session_reconnect_res m) = encode_session_reconnect_response m
encode_packet (guild_create_req m) = encode_guild_create_request m
encode_packet (guild_create_res m) = encode_guild_create_response m
encode_packet (guild_join_req m) = encode_guild_join_request m
encode_packet (guild_join_res m) = encode_guild_join_response m
encode_packet (guild_leave_req m) = encode_guild_leave_request m
encode_packet (guild_leave_res m) = encode_guild_leave_response m
encode_packet (guild_event m) = encode_guild_event m
encode_packet (party_create_req m) = encode_party_create_request m
encode_packet (party_create_res m) = encode_party_create_response m
encode_packet (party_disband_req m) = encode_party_disband_request m
encode_packet (party_disband_res m) = encode_party_disband_response m
encode_packet (party_event m) = encode_party_event m
encode_packet (party_invite_req m) = encode_party_invite_request m
encode_packet (party_invite_res m) = encode_party_invite_response m
encode_packet (party_accept_req m) = encode_party_accept_request m
encode_packet (party_accept_res m) = encode_party_accept_response m
encode_packet (match_req m) = encode_match_request m
encode_packet (match_found_notify m) = encode_match_found_notify m
encode_packet (dungeon_enter_req m) = encode_dungeon_enter_request m
encode_packet (dungeon_enter_res m) = encode_dungeon_enter_response m
encode_packet (dungeon_result_notify m) = encode_dungeon_result_notify m
encode_packet (dungeon_result_res m) = encode_dungeon_result_response m
encode_packet (inventory_update_notify m) = encode_inventory_update_notify m
encode_packet (inventory_update_res m) = encode_inventory_update_response m
encode_packet (chat_send_req m) = encode_chat_send_request m
encode_packet (chat_send_res m) = encode_chat_send_response m
encode_packet (chat_event m) = encode_chat_event m

unfoldable pub decode_packet : ℕ → Text → Option Packet
decode_packet type payload =
    if type == 1
    then Option.map login_req (decode_login_request payload)
    else if type == 2
    then Option.map login_res (decode_login_response payload)
    else if type == 3
    then Option.map version_reject (decode_version_reject payload)
    else if type == 4
    then Option.map logout_req (decode_logout_request payload)
    else if type == 5
    then Option.map logout_res (decode_logout_response payload)
    else if type == 6
    then Option.map session_reconnect_req (decode_session_reconnect_request payload)
    else if type == 7
    then Option.map session_reconnect_res (decode_session_reconnect_response payload)
    else if type == 200
    then Option.map guild_create_req (decode_guild_create_request payload)
    else if type == 201
    then Option.map guild_create_res (decode_guild_create_response payload)
    else if type == 202
    then Option.map guild_join_req (decode_guild_join_request payload)
    else if type == 203
    then Option.map guild_join_res (decode_guild_join_response payload)
    else if type == 204
    then Option.map guild_leave_req (decode_guild_leave_request payload)
    else if type == 205
    then Option.map guild_leave_res (decode_guild_leave_response payload)
    else if type == 206
    then Option.map guild_event (decode_guild_event payload)
    else if type == 100
    then Option.map party_create_req (decode_party_create_request payload)
    else if type == 101
    then Option.map party_create_res (decode_party_create_response payload)
    else if type == 106
    then Option.map party_disband_req (decode_party_disband_request payload)
    else if type == 107
    then Option.map party_disband_res (decode_party_disband_response payload)
    else if type == 108
    then Option.map party_event (decode_party_event payload)
    else if type == 102
    then Option.map party_invite_req (decode_party_invite_request payload)
    else if type == 103
    then Option.map party_invite_res (decode_party_invite_response payload)
    else if type == 104
    then Option.map party_accept_req (decode_party_accept_request payload)
    else if type == 105
    then Option.map party_accept_res (decode_party_accept_response payload)
    else if type == 400
    then Option.map match_req (decode_match_request payload)
    else if type == 401
    then Option.map match_found_notify (decode_match_found_notify payload)
    else if type == 500
    then Option.map dungeon_enter_req (decode_dungeon_enter_request payload)
    else if type == 501
    then Option.map dungeon_enter_res (decode_dungeon_enter_response payload)
    else if type == 502
    then Option.map dungeon_result_notify (decode_dungeon_result_notify payload)
    else if type == 503
    then Option.map dungeon_result_res (decode_dungeon_result_response payload)
    else if type == 600
    then Option.map inventory_update_notify (decode_inventory_update_notify payload)
    else if type == 601
    then Option.map inventory_update_res (decode_inventory_update_response payload)
    else if type == 300
    then Option.map chat_send_req (decode_chat_send_request payload)
    else if type == 301
    then Option.map chat_send_res (decode_chat_send_response payload)
    else if type == 302
    then Option.map chat_event (decode_chat_event payload)
    else none

abbrev pub Fits : Packet → Type 0
Fits (login_req m) = FitsLoginRequest m
Fits (login_res m) = FitsLoginResponse m
Fits (version_reject m) = FitsVersionReject m
Fits (logout_req m) = FitsLogoutRequest m
Fits (logout_res m) = FitsLogoutResponse m
Fits (session_reconnect_req m) = FitsSessionReconnectRequest m
Fits (session_reconnect_res m) = FitsSessionReconnectResponse m
Fits (guild_create_req m) = FitsGuildCreateRequest m
Fits (guild_create_res m) = FitsGuildCreateResponse m
Fits (guild_join_req m) = FitsGuildJoinRequest m
Fits (guild_join_res m) = FitsGuildJoinResponse m
Fits (guild_leave_req m) = FitsGuildLeaveRequest m
Fits (guild_leave_res m) = FitsGuildLeaveResponse m
Fits (guild_event m) = FitsGuildEvent m
Fits (party_create_req m) = FitsPartyCreateRequest m
Fits (party_create_res m) = FitsPartyCreateResponse m
Fits (party_disband_req m) = FitsPartyDisbandRequest m
Fits (party_disband_res m) = FitsPartyDisbandResponse m
Fits (party_event m) = FitsPartyEvent m
Fits (party_invite_req m) = FitsPartyInviteRequest m
Fits (party_invite_res m) = FitsPartyInviteResponse m
Fits (party_accept_req m) = FitsPartyAcceptRequest m
Fits (party_accept_res m) = FitsPartyAcceptResponse m
Fits (match_req m) = FitsMatchRequest m
Fits (match_found_notify m) = FitsMatchFoundNotify m
Fits (dungeon_enter_req m) = FitsDungeonEnterRequest m
Fits (dungeon_enter_res m) = FitsDungeonEnterResponse m
Fits (dungeon_result_notify m) = FitsDungeonResultNotify m
Fits (dungeon_result_res m) = FitsDungeonResultResponse m
Fits (inventory_update_notify m) = FitsInventoryUpdateNotify m
Fits (inventory_update_res m) = FitsInventoryUpdateResponse m
Fits (chat_send_req m) = FitsChatSendRequest m
Fits (chat_send_res m) = FitsChatSendResponse m
Fits (chat_event m) = FitsChatEvent m
