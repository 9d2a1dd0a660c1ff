-- ===== src/Lib.antt =====
-- The game server of gameserver-hide: the protocol that it speaks, and the services behind it.
--
-- The program. A connection delivers bytes; src/net/io_layer.cpp cuts them into frames by
-- src/net/codec.cpp, and the payload of a frame is a message of src/net/protocol.cpp, chosen by the
-- packet type of the header. The server checks the packet against its security policy and against
-- the session, src/net/session.cpp, which also queues what is sent. The handlers of
-- src/net/server.cpp call the services: src/party holds parties and their invites, src/match the
-- queue of parties that look for an opponent, src/dungeon the instances that a party plays, and
-- asks src/party whether the party is ready, and src/reward the grant of what a cleared dungeon
-- yields, which goes to the storages of src/inventory. src/guild and src/chat send events to the
-- sessions. src/net/worker_pool.cpp hands packets to threads.
--
-- The files.
--   Base          numbers, Boolean tests, lists; Base/Int is `int`, Base/Map `std::unordered_map` as
--                 an association list whose order stands for the order of iteration
--   Net/Wire      the readers and writers of the anonymous namespace of src/net/protocol.cpp; a
--                 reader takes the payload and the offset and returns Option (value, offset), where
--                 none is a returned false
--   Net/Protocol  the messages: a record, an encoder and a decoder for each, in one file for each
--                 group of messages; Packet is PacketType with the messages it stands for
--   Net/Frames    Codec, FrameDecoder (a buffer) and PacketPipeline (a map from connections to
--                 buffers); the calls of the dispatch function are the second result of on_read
--   Net/Security  computeSignature, verifySignature, wrapSecurePayload and unwrapSecurePayload
--   Session       Session of src/net/session.cpp: the send queue, the window of nonces, the timers
--   Net/Auth      TokenService
--   Net/Workers   PacketQueue, and PacketDispatcher with WorkerPool as a relation of steps
--   Server        what Server::handlePacket of src/net/server.cpp checks in front of its handlers;
--                 admit returns the metrics and the session, and whether the packet is refused,
--                 answered, or passed on with its inner payload. Below it, Registry is
--                 SessionRegistry, World the state of Server, Accounts, Matches, Dungeons, Items and
--                 Social the cases of the switch, Handle handlePacket and the other operations, and
--                 History the calls that a server gets, in order
--   Party         PartyService: Types has its state, Membership createParty, disbandParty,
--                 removeMember and replaceMemberSession, Invites the invites, Query the queries
--   Guild, Chat   GuildService and ChatService
--   Inventory     InventoryStorage as a record of operations; Memory is InMemoryInventoryStorage, and
--                 MySqlInventoryStorage, whose code is the same; Cached CachedInventoryStorage
--   Dungeon       InstanceManager, with the party service as an argument;
--                 Dungeon/Movement is MovementValidator
--   Matching      MatchQueue
--   Reward        Inventory and RewardService; Reward/Drops is DropTable with grantFromTable
--   Combat        Dispatcher of src/combat
-- Each service is a record of the fields of the class; an operation takes its arguments and the
-- state, and returns the new state and the result. The events that a service sends to its sink are
-- kept in a list, in order. Files below a component hold its proofs, Tests its examples.
--
-- Numbers. Ids and quantities are natural numbers, with the wrap of their width written out where
-- the code can reach it (the id counters, the sums of quantities, the length field of a frame). A
-- `std::string` is its list of bytes; a time point is a number of clock ticks. `int` arithmetic
-- does not overflow, which the language leaves undefined.
--
-- Fuel. The loop of onRead runs on the length of the buffer, since each frame takes at least the 8
-- bytes of its header. Every other loop is structural.
--
-- Shared objects. A session object stays alive in a connection when the server has removed it from
-- its map: World keeps it as detached, and its packets are still handled.
--
-- Parameters. In the match queue, the growth of the allowed difference with the waiting time is a
-- cast from double to int, which any function on integers stands for. A session takes its token
-- bucket, which counts in doubles, as a type and a function; the server takes the number format of
-- std::ostringstream, the draws of its random numbers, and the storage that it is given. The times
-- at which a sink queues a frame are arguments. The drop table takes the draws of a chance and of a
-- quantity, and the validation of movement the arithmetic of floats.
--
-- Not modelled: logging and the overview for the administration, the event loop of
-- src/net/io_layer.cpp, main.cpp and the load simulation under scripts, which only do input and
-- output.
pub mod Base
pub mod Net
pub mod Party
pub mod Dungeon
pub mod Matching
pub mod Reward
pub mod Session
pub mod Server
pub mod Guild
pub mod Chat
pub mod Combat
pub mod Inventory
