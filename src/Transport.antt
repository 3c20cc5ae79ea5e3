-- ===== src/Transport.antt =====
-- src/transport: the workers, one for each configured transport, their shared state and the handles
-- through which commands reach them.
pub mod State
pub mod Worker
pub mod Gsusb
pub mod Socketcan
pub mod Serial
pub mod Udp
pub mod Replies
pub mod Agreement
pub mod Answers
pub mod Handle
pub mod Manager
pub mod Startup
pub mod Listing
pub mod Lifecycle
