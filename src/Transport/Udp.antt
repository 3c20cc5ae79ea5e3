-- ===== src/Transport/Udp.antt =====
-- src/transport/udp.rs: the Cyphal/UDP worker. The Canadensis node, the SQLite engine
-- and what opens the device are interfaces.
pub mod Commands
pub mod Requests
pub mod Transfers
pub mod Loop
pub mod Replies
pub mod Start
pub mod Listing
