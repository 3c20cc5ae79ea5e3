-- ===== src/Transport/Serial.antt =====
-- src/transport/serial.rs: the Cyphal/Serial worker. The Canadensis node, the SQLite engine
-- and what opens the device are interfaces.
pub mod Commands
pub mod Requests
pub mod Transfers
pub mod Loop
pub mod Replies
pub mod Start
pub mod Port
pub mod Listing
