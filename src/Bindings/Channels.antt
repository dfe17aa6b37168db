-- ===== src/Bindings/Channels.antt =====
-- src/lua_channel.cpp: the module `c` of the scripts. `Fields` reads and writes a channel, `Bans`
-- its bans, `Members` who is in it, leads it or is invited, `Rooms` makes and destroys channels
-- and `Said` sends.
pub mod Fields
pub mod Bans
pub mod Members
pub mod Rooms
pub mod Said
pub mod Table
pub mod Sound
pub mod Roles
