-- ===== src/Transport/Gsusb/Usb.antt =====
-- The USB host library, rusb, as an interface: the calls that src/transport/can_gsusb.rs makes.
-- Each takes the state of the bus, may fail, and gives the state after it.
use cyphal_service.Common.{ℕ, ◌≡◌, Bool, List, [], ◌∷◌, ◌++◌, Result, ok, err}

-- `rusb::Error`.
pub data UsbError : Type 0 where
  io invalid_param access no_device not_found busy timeout overflow pipe interrupted no_mem :
      UsbError
  not_supported bad_descriptor other : UsbError

-- The fields of a control request before its data.
pub record Setup : Type 0 where
  pub request_type : ℕ
  pub request : ℕ
  pub value : ℕ
  pub index : ℕ

pub data Direction : Type 0 where
  dir_in dir_out : Direction

pub record Endpoint : Type 0 where
  pub address : ℕ
  pub is_bulk : Bool
  pub direction : Direction

pub record Descriptor : Type 0 where
  pub interface_number : ℕ
  pub class_code : ℕ
  pub endpoints : List Endpoint

pub record Usb : Type 1 where
  pub Bus : Type 0
  pub Device : Type 0
  pub Handle : Type 0
  pub devices : Bus → Result (List Device) UsbError
  -- The vendor's ID and the product's.
  pub device_ids : Bus → Device → Result (ℕ × ℕ) UsbError
  -- The descriptors of each interface of the active configuration.
  pub active_config : Bus → Device → Result (List (List Descriptor)) UsbError
  pub open_device : Device → Bus → Result Handle UsbError × Bus
  pub kernel_driver_active : Handle → ℕ → Bus → Result Bool UsbError × Bus
  pub detach_kernel_driver : Handle → ℕ → Bus → Result (Unit {0}) UsbError × Bus
  pub claim_interface : Handle → ℕ → Bus → Result (Unit {0}) UsbError × Bus
  pub release_interface : Handle → ℕ → Bus → Result (Unit {0}) UsbError × Bus
  pub clear_halt : Handle → ℕ → Bus → Result (Unit {0}) UsbError × Bus
  pub write_control : Handle → Setup → List ℕ → Bus → Result ℕ UsbError × Bus
  -- The bytes that were read, at most as many as asked for.
  pub read_control : Handle → Setup → ℕ → Bus → Result (List ℕ) UsbError × Bus
  pub write_bulk : Handle → ℕ → List ℕ → Bus → Result ℕ UsbError × Bus
  pub read_bulk : Handle → ℕ → ℕ → Bus → Result (List ℕ) UsbError × Bus

-- An account of the control writes that a bus accepted, which is to say whose calls succeeded: a
-- write that succeeds adds itself, one that fails adds nothing, and no other call is a control write.
pub record Account (usb : Usb) : Type 0 where
  pub accepted : usb.Bus → List (Setup × List ℕ)
  pub write_ok :
      (h : usb.Handle) (s : Setup) (bytes : List ℕ) (b : usb.Bus) (n : ℕ)
      → (usb.write_control h s bytes b).0 ≡ ok n
      → accepted (usb.write_control h s bytes b).1 ≡ accepted b ++ (s, bytes) ∷ []
  pub write_err :
      (h : usb.Handle) (s : Setup) (bytes : List ℕ) (b : usb.Bus) (e : UsbError)
      → (usb.write_control h s bytes b).0 ≡ err e
      → accepted (usb.write_control h s bytes b).1 ≡ accepted b
  pub after_read :
      (h : usb.Handle) (s : Setup) (n : ℕ) (b : usb.Bus)
      → accepted (usb.read_control h s n b).1 ≡ accepted b
  pub after_open : (d : usb.Device) (b : usb.Bus) → accepted (usb.open_device d b).1 ≡ accepted b
  pub after_active :
      (h : usb.Handle) (i : ℕ) (b : usb.Bus)
      → accepted (usb.kernel_driver_active h i b).1 ≡ accepted b
  pub after_detach :
      (h : usb.Handle) (i : ℕ) (b : usb.Bus)
      → accepted (usb.detach_kernel_driver h i b).1 ≡ accepted b
  pub after_claim :
      (h : usb.Handle) (i : ℕ) (b : usb.Bus) → accepted (usb.claim_interface h i b).1 ≡ accepted b
  pub after_release :
      (h : usb.Handle) (i : ℕ) (b : usb.Bus) → accepted (usb.release_interface h i b).1 ≡ accepted b
  pub after_clear :
      (h : usb.Handle) (e : ℕ) (b : usb.Bus) → accepted (usb.clear_halt h e b).1 ≡ accepted b
