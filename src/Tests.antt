-- ===== src/Tests.antt =====
-- The theorems at concrete inputs, by the part of the server that they are about.
pub mod Json
pub mod Wire
pub mod Rooms
pub mod Saved
pub mod Loop
pub mod Registers
pub mod Commands
pub mod Files
pub mod Events
pub mod Bindings
