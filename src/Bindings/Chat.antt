-- ===== src/Bindings/Chat.antt =====
-- src/lua_chat.cpp: the module `s` of the scripts. `Broadcast` sends to many connections, `Users`
-- sends the list of users, `Registers` is for the operators, bans and timeouts, `Calls` for alt
-- watches and staff calls, `Logs` for the log of actions, and `Settings` for what is configured.
pub mod Broadcast
pub mod Users
pub mod Settings
pub mod Logs
pub mod Registers
pub mod Calls
