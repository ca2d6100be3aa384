-- ===== src/Lib.antt =====
-- Verification library of the server (EOSERV / etheos): the parts of the program that decide what
-- bytes mean and what a client may do, with the theorems that make them correct.
--
-- Base: shared names, lists and numbers over the native naturals, 32-bit integers.
-- Packet: src/packet.cpp and src/packet.hpp. Packet/Number has `PacketProcessor::Number` and
-- `ENumber`, Packet/Id `PID` and `EPID`, Packet/Cipher `Encode`, `Decode` and `DickWinder`,
-- Packet/Reader `PacketReader` and Packet/Builder `PacketBuilder`. A string is the list of its
-- bytes. A read outside a buffer, which C++ leaves undefined, is a value of its own: `overrun`, or
-- `none` in the cipher.
-- Client: src/eoclient.cpp. Client/Frame has the state machine of `EOClient::Tick` that cuts the
-- stream into packets, Client/Sequence the sequence numbers, Client/Execute what happens to a
-- packet: `Execute` decodes it with the cipher, checks its sequence number with the reader, and
-- queues it for the handlers. A random choice is an argument. `Tick` loops at most once for each
-- byte that it has received, which is its fuel.
-- Character: src/character.cpp. Character/Items has the inventory (`HasItem`, `AddItem`, `DelItem`,
-- `CanHoldItem`) and the offers of a trade (`AddTradeItem`, `DelTradeItem`), Character/Weight the
-- weights in `CalculateStats`, Character/Equipment `Equip` and `Unequip`. An `int` or a `short` is
-- its bit pattern (Base/Word), so that sums wrap as they do in the program. The settings and the
-- item file are the record `World`.
-- Handlers: src/handlers. Handlers/Bank, Handlers/Locker, Handlers/Trade, Handlers/Chest and
-- Handlers/Shop move gold and items between the inventory and the bank, the locker, a partner, a
-- chest and a shop; they call the inventory's functions, and read and build packets with Packet.
-- Maps: src/map.cpp. Maps/Chest has `Map_Chest`, the chests that Handlers/Chest uses. The time that
-- the clock gives is an argument. Maps/Walk has `Walk` of a character and of an NPC: whether a step
-- is taken, and who comes into view or leaves it (Maps/Walk/Sight against the distance that
-- `InRange` measures). What the quest rules that a step meets do is the argument `check_quests`.
-- Maps/Doors has `OpenDoor` and `CloseDoor`, which Handlers/Door calls (src/handlers/Door.cpp).
-- Maps/Floor has the items that lie on a map, which the handlers of Handlers/Item
-- (src/handlers/Item.cpp) put there and take away; `GenerateItemID` needs a round for each item and
-- one more.
-- Login: src/loginmanager.cpp. Checking and changing passwords, the update of a password's hash
-- that a login starts in the background, and the number of logins under way, with the exception
-- that `AsyncOperation::Execute` throws. The hash functions are the record `Hashers`, of which only
-- that a hash is accepted for what it was made of is asked, the database's table of accounts a
-- function from the user name; what the thread pool does is an order of steps.
-- Party: src/party.cpp. `ShareEXP` shares experience among the members of a party. Party/Members
-- has who is in which party: `Join`, `Leave`, and the handlers that accept a request or remove a
-- member.
-- Socket: src/socket.cpp. The ring buffers of a `Client`: `Recv` and `Send`, by which the program
-- gets and puts bytes, `DoRecv` and `DoSend`, by which the server moves them from and to the
-- socket. The calls of the operating system are arguments: what `recv` delivers, and how much
-- `send` takes. Socket/Stream composes the ring with Client/Frame.
-- Eoplus: src/eoplus. Eoplus/Lex has the lexer of the quest scripts (src/eoplus/lex.cpp and
-- lex.hpp), Eoplus/Tokens and Eoplus/Parse the parser (parse.cpp and parse.hpp), Eoplus/Quest what
-- it makes (eoplus.hpp), and Eoplus/Script the two together (`Quest::Quest` of eoplus.cpp).
-- Eoplus/Context has the state that a quest is in (context.cpp): `SetState`, `DoActions` and
-- `CheckRules`, with the virtual functions as the record `Hooks`. The parser needs a round for each
-- token and one more; nested calls of `SetState` need as much fuel as `max_recursion` lets them be
-- deep, where only rules set the state and no action reaches another quest's context, which shares
-- `recursive_depth`.
-- A loop of the program that may not end takes fuel, a number of rounds, and gives `running` when
-- it is spent; each `ReadToken` takes a byte or a buffered token, so that two rounds for every byte
-- and one more are enough where the script's last line is ended.
-- Not modelled: files, the database and the log, which only move bytes; connecting, binding and
-- selecting sockets; the formulas of the statistics; the packets of a step, and what `Warp` and
-- `DeathRespawn` do; NPCs, but that they walk; guilds; the actions and the rules of quests; the
-- packets of a party but those of `ShareEXP`; `Chest_Open` and `Shop_Open`, which show a list and
-- change no item; and the handlers not named above.
pub mod Base
pub mod Character
pub mod Client
pub mod Eoplus
pub mod Handlers
pub mod Login
pub mod Maps
pub mod Packet
pub mod Party
pub mod Socket
