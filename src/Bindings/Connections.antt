-- ===== src/Bindings/Connections.antt =====
-- src/lua_connection.cpp: the module `u` of the scripts. `Fields` reads and writes a connection's
-- fields, `Sets` its roles, friends, ignores and kinks, and `Session` finds, names, closes and
-- sends. What a binding leaves on the stack below its results is not modelled.
pub mod Fields
pub mod Sets
pub mod Session
pub mod Registered
