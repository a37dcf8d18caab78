-- ===== src/Lib.antt =====
-- OTX, a server for a multiplayer game. A client's connection carries messages, which a protocol
-- encrypts and a checksum guards; the requests in them become tasks of the dispatcher's thread,
-- and what is to happen later are events of the scheduler's thread, which hands them to the
-- dispatcher when their time has come. Before a player is let in, the address of its connection is
-- throttled, and a full server puts it in a waiting list. The game's world is read from binary
-- node files; the attributes of items are kept in property streams. The map has tiles, each with a
-- stack of things. Players in the game are at positions, can be named by the start of their names,
-- can form parties, talk in channels, and rise in level by experience.
--
-- The files follow these parts:
--
-- - Prelude: the names of the libraries, byte memory with the loads and stores of memcpy (Memory),
--   little-endian codes (Codes), lists as sets (Sets), tests on native numbers (Tests).
--
-- - Position: `Position` of src/position.h, with its order, wrapping arithmetic and ranges.
--
-- - Net.Message: `NetworkMessage` of src/networkmessage.h and src/networkmessage.cpp, a buffer as
--   a memory, with the counters of its length and its position. Each read and write is a function
--   on the message, under the method's name in snake case.
--
-- - Net.Xtea and Net.Protocol: the cipher and the send and receive paths of src/protocol.cpp.
--   Net.Adler: `adlerChecksum` of src/tools.cpp. Net.Output: `OutputMessage` of
--   src/outputmessage.h, whose headers are written in front of the body.
--
-- - Net.Connection: the handlers of src/connection.cpp, each a function on the state of a
--   connection; what the source asks of the socket and of the protocol is in the result.
--
-- - Files.Otb and Files.Properties: the parser of node files, and the streams, of
--   src/fileloader.cpp and src/fileloader.h. The parser's stack is a list of unfinished nodes, its
--   pointers are offsets into the file.
--
-- - Access.Throttle and Access.WaitingList: `Ban::acceptConnection` of src/ban.cpp, and
--   src/waitlist.cpp.
--
-- - Schedule.Dispatcher and Schedule.Scheduler: the two threads of src/tasks.cpp and
--   src/scheduler.cpp. What is done under the lock is one step; a run of the scheduler is a
--   sequence of such steps in any order, each with what it gives the dispatcher. Between the
--   dispatcher's turns any tasks may be added. The top of its priority queue is any of the
--   earliest tasks, since the source does not settle which. Schedule.Handover joins both.
--
-- - Names.WildcardTree: the trie of src/wildcardtree.cpp. The pointers that the loops move are the
--   recursion; the path that `remove` keeps on a stack is its way back.
--
-- - Party: src/party.cpp, what src/player.cpp keeps of invitations, and the handlers of
--   src/game.cpp. A pointer is a number, the store of parties and players is part of the state,
--   and what the scripts answer is an argument.
--
-- - Chat: src/chat.cpp, src/chat.h and the handlers of src/game.cpp. Maps are lists of entries
--   (Chat.Maps); Chat.Channel holds the channels, Chat.Rooms the chat with making, finding and
--   deleting of channels, Chat.Requests what players ask. A pointer to a channel is the place of
--   the channel. The 9900 ids that the loop tries are its fuel.
--
-- - Growth: the levels of players, of src/player.cpp and src/player.h. The loop over the levels
--   has the last level whose experience does not wrap, 700000, as its fuel: each round is one
--   level, so that is enough for a player whose experience does not pass it.
--
-- - Tiles: src/tile.cpp and src/tile.h, with what they read of src/item.h and src/items.h
--   (Tiles.Item). The flags are a function from a bit (Tiles.Flags). Tiles.Tile holds the record,
--   one vector of items in two parts with the count of the first as in the source, and the
--   queries; Tiles.Tile.Changes what changes it, Tiles.Tile.Client the positions that clients are
--   told. Items are told apart by a number where the source compares pointers. Tiles.Tile.Things
--   is the sequence of things that an index counts along.
--
-- - Paths: the path finder of src/map.cpp and src/map.h. A pointer to a node is its index; the
--   loop is a step relation, a round of it a function. The directions are collected along the
--   parents with one more than the cost of the node as fuel, which is enough since a parent is
--   cheaper. The counts of costs and of closed nodes are natural numbers.
--
-- Numbers are natural numbers; a wrap is written out where a machine integer of the source can
-- wrap. Loops are recursions on lists, or on fuel: the rounds of the cipher and of the checksum
-- take the length as fuel, since each takes a byte at least; the dispatcher's loop takes any
-- number of turns, and more than the tasks that wait and are added in front are enough for it to
-- end. The clock, the configuration, the RSA library and the scripts are arguments.
--
-- Not modelled are the packets of the game protocol and the protocols for login and status, the
-- map with its tree of tiles, containers, the attributes of items, creatures and combat, the Lua
-- interface, and the database with what is loaded from and stored in it; none of these is called
-- by what is modelled, except where an argument stands for it. Messages and icons that only tell a
-- client what happened are left out, and so is what is computed in floating point, but for the
-- least level of players that share experience.
pub mod Prelude
pub mod Position
pub mod Net
pub mod Chat
pub mod Growth
pub mod Paths
pub mod Files
pub mod Access
pub mod Schedule
pub mod Party
pub mod Names
pub mod Tiles
