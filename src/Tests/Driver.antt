-- ===== src/Tests/Driver.antt =====
-- The theorems on the gs_usb driver, applied to a bus with one device, which knows requests to the
-- device only and echoes what it is given.
use cyphal_service.Common.{
  ℕ, ◌^◌, ◌≡◌, refl, inl, inr, true, Bool-cases, none, List, [], ◌∷◌, ◌++◌, arith, ltb, length,
  take, ◌==◌, if◌then◌else◌, Result, ok, err,
}
use cyphal_service.Transport.Gsusb.Frame.{encode_frame}
use cyphal_service.Transport.Gsusb.Bittiming.{
  compute_bittiming, over_tseg1, over_tseg2, try_segments, try_brp,
}
use cyphal_service.Transport.Gsusb.Usb.{
  UsbError, pipe, timeout, Setup, dir_in, dir_out, Descriptor, Usb, Account,
}
use cyphal_service.Transport.Gsusb.Interfaces.{
  choose_interface, find_gsusb_interface, first_expected, all_descriptors, scan,
}
use cyphal_service.Transport.Gsusb.Interfaces.Directed.{IsDirected, choose_interface-IsDirected}
use cyphal_service.Transport.Gsusb.Driver.{
  GsUsbDriver, unsupported_bitrate, write_from, write_control_candidates, read_from,
  read_control_candidates,
}
use cyphal_service.Transport.Gsusb.Driver.Requests.{
  bt_const_request, clear_halt_conditions, configure_host_format, read_device_config, read_bt_const,
  set_bittiming, set_mode, bt_const_of,
}
use cyphal_service.Transport.Gsusb.Driver.Open.{
  Stop, raised, is_listed, is_match, nth, candidates, configure, detach, claimed, open_selected,
  open_driver,
}
use cyphal_service.Transport.Gsusb.Driver.Frames.{Nb, done, transmit, receive}
use cyphal_service.Transport.Gsusb.Driver.Growth.{Write, NotStarted}
use cyphal_service.Transport.Gsusb.Driver.Opened.{open_driver-NotStarted}
use cyphal_service.Transport.Gsusb.Driver.Echo.{receive-transmit}
use cyphal_service.Tests.Device.{heartbeat_frame}

-- The writes that the device accepted, and the frames that it has to echo.
abbrev pub ToyBus : Type 0
ToyBus = List Write × List (List ℕ)

-- The limits of a 48 MHz device, in bytes.
abbrev pub limits : List ℕ
limits =
    (0 ∷ 0 ∷ 0 ∷ 0 ∷ 0x00 ∷ 0x6C ∷ 0xDC ∷ 0x02 ∷ 1 ∷ 0 ∷ 0 ∷ 0 ∷ 16 ∷ 0 ∷ 0 ∷ 0 ∷ [])
    ++ ((1 ∷ 0 ∷ 0 ∷ 0 ∷ 8 ∷ 0 ∷ 0 ∷ 0 ∷ 4 ∷ 0 ∷ 0 ∷ 0 ∷ [])
        ++ (1 ∷ 0 ∷ 0 ∷ 0 ∷ 0 ∷ 4 ∷ 0 ∷ 0 ∷ 1 ∷ 0 ∷ 0 ∷ 0 ∷ []))

abbrev pub toy_interface : Descriptor
toy_interface = record {
  interface_number = 0;
  class_code = 0xff;
  endpoints =
      record { address = 0x81; is_bulk = true; direction = dir_in }
      ∷ record { address = 0x02; is_bulk = true; direction = dir_out }
      ∷ [];
}

abbrev pub toy_write : Unit {0} → Setup → List ℕ → ToyBus → Result ℕ UsbError × ToyBus
toy_write h s bytes b =
    if s.request_type == 0x40
    then (ok (length bytes), (b.0 ++ (s, bytes) ∷ [], b.1))
    else (err pipe, b)

abbrev pub toy_read : Unit {0} → Setup → ℕ → ToyBus → Result (List ℕ) UsbError × ToyBus
toy_read h s n b = if s.request == bt_const_request then (ok limits, b) else (ok (take n limits), b)

abbrev pub toy_read_bulk : Unit {0} → ℕ → ℕ → ToyBus → Result (List ℕ) UsbError × ToyBus
toy_read_bulk h e n (log, []) = (err timeout, (log, []))
toy_read_bulk h e n (log, f ∷ fs) = (ok (take n f), (log, fs))

abbrev pub toy : Usb
toy = record {
  Bus = ToyBus;
  Device = Unit {0};
  Handle = Unit {0};
  devices = λ b. ok (tt ∷ []);
  device_ids = λ b d. ok (0x1d50, 0x606f);
  active_config = λ b d. ok ((toy_interface ∷ []) ∷ []);
  open_device = λ d b. (ok tt, b);
  kernel_driver_active = λ h i b. (ok true, b);
  detach_kernel_driver = λ h i b. (ok tt, b);
  claim_interface = λ h i b. (ok tt, b);
  release_interface = λ h i b. (ok tt, b);
  clear_halt = λ h e b. (ok tt, b);
  write_control = toy_write;
  read_control = toy_read;
  write_bulk = λ h e bytes b. (ok (length bytes), (b.0, b.1 ++ bytes ∷ []));
  read_bulk = toy_read_bulk;
}

toy_write-ok :
    (h : Unit {0}) (s : Setup) (bytes : List ℕ) (b : ToyBus) (n : ℕ)
    → (toy_write h s bytes b).0 ≡ ok n
    → (toy_write h s bytes b).1.0 ≡ b.0 ++ (s, bytes) ∷ []
toy_write-ok h s bytes b n sent = elim (Bool-cases (s.request_type == 0x40)) [
  | inl known ↦ rw known refl
  | inr unknown ↦ ground (arith, sent)
]

toy_write-err :
    (h : Unit {0}) (s : Setup) (bytes : List ℕ) (b : ToyBus) (e : UsbError)
    → (toy_write h s bytes b).0 ≡ err e
    → (toy_write h s bytes b).1.0 ≡ b.0
toy_write-err h s bytes b e failed = elim (Bool-cases (s.request_type == 0x40)) [
  | inl known ↦ ground (arith, failed)
  | inr unknown ↦ rw unknown refl
]

toy_read-log : (h : Unit {0}) (s : Setup) (n : ℕ) (b : ToyBus) → (toy_read h s n b).1.0 ≡ b.0
toy_read-log h s n b = elim (Bool-cases (s.request == bt_const_request)) [
  | inl known ↦ rw known refl
  | inr unknown ↦ rw unknown refl
]

abbrev toy_account : Account toy
toy_account = record {
  accepted = λ b. b.0;
  write_ok = toy_write-ok;
  write_err = toy_write-err;
  after_read = toy_read-log;
  after_open = λ d b. refl;
  after_active = λ h i b. refl;
  after_detach = λ h i b. refl;
  after_claim = λ h i b. refl;
  after_release = λ h i b. refl;
  after_clear = λ h e b. refl;
}

abbrev toy_driver : GsUsbDriver (Unit {0})
toy_driver = record {
  handle = tt;
  channel = 0;
  interface_number = 0;
  bulk_in_endpoint = 0x81;
  bulk_out_endpoint = 0x02;
  echo_counter = 0;
}

abbrev opened : ℕ → Result (GsUsbDriver (Unit {0})) Stop × ToyBus
opened bitrate = open_driver toy true 0 none none bitrate ([], [])

-- No divisor gives this bit rate.
fails_to_open : (opened 100000000).0 ≡ err (raised (unsupported_bitrate 100000000))
unfolding open_driver candidates is_match is_listed nth open_selected find_gsusb_interface
    choose_interface first_expected scan all_descriptors claimed detach configure
    clear_halt_conditions configure_host_format read_device_config read_bt_const bt_const_of
    set_mode set_bittiming write_control_candidates write_from read_control_candidates read_from
    compute_bittiming over_tseg1 over_tseg2 try_segments try_brp
fails_to_open = refl

open_driver-NotStarted_example : (ws : List Write) × ((opened 100000000).1.0 ≡ ws) × NotStarted ws
open_driver-NotStarted_example =
    open_driver-NotStarted toy_account true 0 none none 100000000 ([], [])
      (raised (unsupported_bitrate 100000000)) fails_to_open

choose_interface-IsDirected_example : IsDirected (choose_interface (toy_interface ∷ []))
choose_interface-IsDirected_example =
    choose_interface-IsDirected (toy_interface ∷ []) ((omega arith, (omega arith, tt)), tt)

abbrev sent : Nb (Unit {0}) × GsUsbDriver (Unit {0}) × ToyBus
sent = transmit toy ltb toy_driver heartbeat_frame 2 ([], [])

receive-transmit_example :
    (sent.0 ≡ done tt)
    × (sent.1.echo_counter ≡ 1)
    × ((receive toy (λ i. ltb i (2 ^ 29)) sent.1 9 sent.2).0
        ≡ done (record {
          timestamp = 9;
          id = heartbeat_frame.id;
          payload = take 8 heartbeat_frame.payload;
        }))
unfolding transmit encode_frame
receive-transmit_example =
    receive-transmit toy ltb (λ i. ltb i (2 ^ 29)) toy_driver heartbeat_frame 2 9 20 ([], []) refl
      (omega arith) refl (omega arith) refl refl
