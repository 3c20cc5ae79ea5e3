-- ===== src/Transport/Gsusb.antt =====
-- src/transport/can_gsusb.rs: the gs_usb driver's frames, bit timing and device, and its worker.
pub mod Frame
pub mod Bittiming
pub mod Usb
pub mod Interfaces
pub mod Driver
pub mod Worker
