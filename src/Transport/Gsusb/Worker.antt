-- ===== src/Transport/Gsusb/Worker.antt =====
-- src/transport/can_gsusb.rs: the gs_usb worker. The Canadensis node, the SQLite engine
-- and what opens the device are interfaces.
pub mod Commands
pub mod Requests
pub mod Transfers
pub mod Loop
pub mod Replies
pub mod Start
pub mod Listing
