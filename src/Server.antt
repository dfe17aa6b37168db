-- ===== src/Server.antt =====
-- src/server.cpp: the callbacks of the event loop. `Arriving` is the handshake, `Reading` takes messages from a connection
-- and hands them to the command handlers, `Writing` sends what is queued, `Closing` is how a
-- connection ends. The other children prove.
pub mod Errors
pub mod Reading
pub mod Arriving
pub mod Messages
pub mod Writing
pub mod Output
pub mod Closing
pub mod Events
