-- ===== src/Net/Protocol/Packet/Roundtrip.antt =====
-- The promise of every decoder of src/net/protocol.cpp, chosen by the packet type.
use gameserver_hide.Net.Wire.Exact.{IsExact, IsExact-map}
use gameserver_hide.Net.Protocol.Account.{
  login_request-IsExact, login_response-IsExact, version_reject-IsExact, logout_request-IsExact,
  logout_response-IsExact, session_reconnect_request-IsExact, session_reconnect_response-IsExact,
}
use gameserver_hide.Net.Protocol.Guild.{
  guild_create_request-IsExact, guild_create_response-IsExact, guild_join_request-IsExact,
  guild_join_response-IsExact, guild_leave_request-IsExact, guild_leave_response-IsExact,
  guild_event-IsExact,
}
use gameserver_hide.Net.Protocol.Party.{
  party_create_request-IsExact, party_create_response-IsExact, party_disband_request-IsExact,
  party_disband_response-IsExact, party_event-IsExact,
}
use gameserver_hide.Net.Protocol.Invite.{
  party_invite_request-IsExact, party_invite_response-IsExact, party_accept_request-IsExact,
  party_accept_response-IsExact,
}
use gameserver_hide.Net.Protocol.Match.{match_request-IsExact, match_found_notify-IsExact}
use gameserver_hide.Net.Protocol.Dungeon.{
  dungeon_enter_request-IsExact, dungeon_enter_response-IsExact, dungeon_result_notify-IsExact,
  dungeon_result_response-IsExact,
}
use gameserver_hide.Net.Protocol.Inventory.{
  inventory_update_notify-IsExact, inventory_update_response-IsExact,
}
use gameserver_hide.Net.Protocol.Chat.{
  chat_send_request-IsExact, chat_send_response-IsExact, chat_event-IsExact,
}
use gameserver_hide.Net.Protocol.Packet.{
  Packet, packet_type, encode_packet, decode_packet, Fits, login_req, login_res, version_reject,
  logout_req, logout_res, session_reconnect_req, session_reconnect_res, guild_create_req,
  guild_create_res, guild_join_req, guild_join_res, guild_leave_req, guild_leave_res, guild_event,
  party_create_req, party_create_res, party_disband_req, party_disband_res, party_event,
  party_invite_req, party_invite_res, party_accept_req, party_accept_res, match_req,
  match_found_notify, dungeon_enter_req, dungeon_enter_res, dungeon_result_notify,
  dungeon_result_res, inventory_update_notify, inventory_update_res, chat_send_req, chat_send_res,
  chat_event,
}

-- Every packet whose fields fit their wire types is accepted by the decoder of its type as the packet
-- that was encoded; that decoder refuses the encoding with bytes added behind it, and each proper prefix.
pub packet-IsExact :
    (p : Packet) → Fits p → IsExact (decode_packet (packet_type p)) (encode_packet p) p
unfolding packet_type encode_packet decode_packet
packet-IsExact (login_req m) h = IsExact-map login_req (login_request-IsExact m h)
packet-IsExact (login_res m) h = IsExact-map login_res (login_response-IsExact m h)
packet-IsExact (version_reject m) h = IsExact-map version_reject (version_reject-IsExact m h)
packet-IsExact (logout_req m) h = IsExact-map logout_req (logout_request-IsExact m h)
packet-IsExact (logout_res m) h = IsExact-map logout_res (logout_response-IsExact m h)
packet-IsExact (session_reconnect_req m) h =
    IsExact-map session_reconnect_req (session_reconnect_request-IsExact m h)
packet-IsExact (session_reconnect_res m) h =
    IsExact-map session_reconnect_res (session_reconnect_response-IsExact m h)
packet-IsExact (guild_create_req m) h =
    IsExact-map guild_create_req (guild_create_request-IsExact m h)
packet-IsExact (guild_create_res m) h =
    IsExact-map guild_create_res (guild_create_response-IsExact m h)
packet-IsExact (guild_join_req m) h = IsExact-map guild_join_req (guild_join_request-IsExact m h)
packet-IsExact (guild_join_res m) h = IsExact-map guild_join_res (guild_join_response-IsExact m h)
packet-IsExact (guild_leave_req m) h = IsExact-map guild_leave_req (guild_leave_request-IsExact m h)
packet-IsExact (guild_leave_res m) h =
    IsExact-map guild_leave_res (guild_leave_response-IsExact m h)
packet-IsExact (guild_event m) h = IsExact-map guild_event (guild_event-IsExact m h)
packet-IsExact (party_create_req m) h =
    IsExact-map party_create_req (party_create_request-IsExact m h)
packet-IsExact (party_create_res m) h =
    IsExact-map party_create_res (party_create_response-IsExact m h)
packet-IsExact (party_disband_req m) h =
    IsExact-map party_disband_req (party_disband_request-IsExact m h)
packet-IsExact (party_disband_res m) h =
    IsExact-map party_disband_res (party_disband_response-IsExact m h)
packet-IsExact (party_event m) h = IsExact-map party_event (party_event-IsExact m h)
packet-IsExact (party_invite_req m) h =
    IsExact-map party_invite_req (party_invite_request-IsExact m h)
packet-IsExact (party_invite_res m) h =
    IsExact-map party_invite_res (party_invite_response-IsExact m h)
packet-IsExact (party_accept_req m) h =
    IsExact-map party_accept_req (party_accept_request-IsExact m h)
packet-IsExact (party_accept_res m) h =
    IsExact-map party_accept_res (party_accept_response-IsExact m h)
packet-IsExact (match_req m) h = IsExact-map match_req (match_request-IsExact m h)
packet-IsExact (match_found_notify m) h =
    IsExact-map match_found_notify (match_found_notify-IsExact m h)
packet-IsExact (dungeon_enter_req m) h =
    IsExact-map dungeon_enter_req (dungeon_enter_request-IsExact m h)
packet-IsExact (dungeon_enter_res m) h =
    IsExact-map dungeon_enter_res (dungeon_enter_response-IsExact m h)
packet-IsExact (dungeon_result_notify m) h =
    IsExact-map dungeon_result_notify (dungeon_result_notify-IsExact m h)
packet-IsExact (dungeon_result_res m) h =
    IsExact-map dungeon_result_res (dungeon_result_response-IsExact m h)
packet-IsExact (inventory_update_notify m) h =
    IsExact-map inventory_update_notify (inventory_update_notify-IsExact m h)
packet-IsExact (inventory_update_res m) h =
    IsExact-map inventory_update_res (inventory_update_response-IsExact m h)
packet-IsExact (chat_send_req m) h = IsExact-map chat_send_req (chat_send_request-IsExact m h)
packet-IsExact (chat_send_res m) h = IsExact-map chat_send_res (chat_send_response-IsExact m h)
packet-IsExact (chat_event m) h = IsExact-map chat_event (chat_event-IsExact m h)
