-- ===== src/Lib.antt =====
-- fserv, the chat server of F-List: a model of its core and proofs about it.
--
-- A client opens a TCP connection and asks for an upgrade to a WebSocket. From then on the event
-- loop calls the server back when bytes arrive, when the socket can take bytes and when a timer
-- fires. Messages are text frames that begin with a command of three letters; a few commands are
-- native, the others run a Lua event. Connections sit in channels, and a register that every
-- part shares holds the connections, the channels and the lists of the moderators. The scripts
-- change all of these through modules of functions, and Redis and HTTP requests are queued for
-- threads of their own.
--
-- Websocket: src/websocket.cpp. `Receive` is `Hybi::receive`, `Frame` is `Hybi::sendMessage` and
-- its kin, `Handshake` is `Acceptor::accept` and `Hybi::accept`. A read outside a buffer or an
-- array is the value `none`. `Safety`, `Stream`, `RoundTrip`, `Handshake.Find` and
-- `Handshake.Requests` prove.
-- Json: the calls of the jansson library, as a record; `Json.Laws` is what they promise.
-- Connection: src/connection.cpp and src/messagebuffer.cpp, one client's connection. LuaConstants:
-- the messages of src/lua_constants.cpp, and the errors that a connection is sent.
-- Channel: src/channel.cpp, one channel; `Bans` proves. `Saved` is `saveChannel` and `loadChannel`;
-- `Saved.Restored`, `Saved.Banned` and `Saved.Renewed` prove.
-- Rooms: the functions of that file that change a channel and connections together, on a heap
-- where a number stands for a pointer; `Membership` and `Delivery` prove.
-- Server: src/server.cpp. `Arriving` is `handshakeCallback` and the listener behind `accept`,
-- with a theorem at its end. `Reading` is `connectionReadCallback`, over a record `Handlers` of what
-- it calls; `Writing` is `connectionWriteCallback`; `Closing` is `prepareShutdownConnection`,
-- `shutdownConnection` and `connectionTimerCallback`; `Events` is the ping, the wakeup with the
-- login replies, Lua events and the messages of the RTB socket. `Errors` holds the codes of
-- src/ferror.hpp. `Messages`, `Output`, `Events.Replies` and `Events.Rtb` prove, and so does the
-- end of `Closing`.
-- ServerState: src/server_state.cpp, with `Lists` for the lists of the moderators, `Channels` for
-- what runs over all channels, `Saved` for the JSON files and `PrivateIds` for the names of private
-- channels. `Users`, `Moderation`, `Cleanup`, the modules below `Saved` and `PrivateIds.Fresh` prove.
-- Login: the queues of src/login_evhttp.cpp; `Slots` proves. NativeCommand: `IdentCommand` and, in
-- `Search`, `SearchCommand` and, in `Debug`, `DebugCommand` of src/native_command.cpp; `Ident` and
-- `Search.Found` prove, the latter with `Search.Alike`, `Search.Candidates` and `Search.Wanted`.
-- Bindings: src/flua.hpp and the modules that the scripts call. `Convert` makes JSON of a table;
-- `Channels` is src/lua_channel.cpp, with its table of functions in `Channels.Table`;
-- `Connections` is src/lua_connection.cpp, `Chat` is src/lua_chat.cpp, `Http` is src/lua_http.cpp
-- and `Testing` is src/lua_testing.cpp. A function takes the arguments on the stack to a `Call`,
-- which returns, raises a Lua error or faults; `luaL_error` keeps what was done before it.
-- `Arguments`, `Channels.Sound`, `Channels.Roles`, `Channels.Table.Agree`,
-- `Channels.Table.Rejects`, `Connections.Registered`, `Chat.Users.Split` and `Http.Requests`
-- prove.
-- StartupConfig: the settings of src/startup_config.cpp, once they are read.
-- Prelude: numbers, lists, bytes, integers and maps that all of these share. Tests: the theorems
-- at concrete inputs.
--
-- Names are the source's in snake case; an overload that takes a name in place of a connection
-- ends in `_name`. Each call of `time` is an argument. Maps and sets are lists in their order of
-- iteration. A byte is a number; `char` and `uint64_t` wrap as written; `long`, `int` and `time_t`
-- are integers without a bound, and times in seconds of type `double` are whole microseconds.
--
-- The loop over the frames has the source's own bound, ten rounds less one. The loop over the
-- header lines has as fuel one more than the length of the request, which each round shortens by
-- two bytes at least. The loop over the names of private channels has as fuel one more than there
-- are channels. The wakeup's loop has fuel for the replies that wait, and the conversion of tables
-- the depth of the C stack. Every other loop is structural.
--
-- SHA-1, Base64, MD5, the JSON and Lua libraries, the answers of `recv` and `send`, the Lua events
-- and the timers of libev are parameters, and so is whether a queue takes a request. Not modelled:
-- the threads behind the login, HTTP, Redis and logging queues, the start of the process and its
-- settings file, the idle callback, and of the bindings `setCustomKinks`, `setInfoTags`, statistics,
-- `logMessage` and JSON strings.
pub mod Prelude
pub mod Json
pub mod Websocket
pub mod Connection
pub mod Channel
pub mod Rooms
pub mod Server
pub mod ServerState
pub mod Login
pub mod NativeCommand
pub mod LuaConstants
pub mod StartupConfig
pub mod Bindings
pub mod Tests
