-- ===== src/Transport/Gsusb/Driver/Open.antt =====
-- src/transport/can_gsusb.rs: `GsUsbDriver::open`, and what dropping a driver does.
use cyphal_service.Common.{
  ℕ, zero, suc, Bool, true, false, ◌&&◌, ◌||◌, Option, none, some, List, [], ◌∷◌, ◌==◌,
  if◌then◌else◌, Text, text, Result, ok, err,
}
use cyphal_service.Common.Action.{Action, ◌>>=◌, ◌>>◌, pure, map_err}
use cyphal_service.Transport.Gsusb.Bittiming.{
  GsDeviceBittiming, Search, next, found, panicked, compute_bittiming,
}
use cyphal_service.Transport.Gsusb.Usb.{not_found, Usb}
use cyphal_service.Transport.Gsusb.Interfaces.{GsUsbInterfaceInfo, find_gsusb_interface}
use cyphal_service.Transport.Gsusb.Driver.{
  GsUsbError, usb_error, unsupported_bitrate, protocol_step, into_usb_error, GsUsbDriver,
}
use cyphal_service.Transport.Gsusb.Driver.Requests.{
  clear_halt_conditions, configure_host_format, read_device_config, read_bt_const, set_bittiming,
  set_mode, mode_reset, mode_start,
}

-- CANDLELIGHT_DEVICES
abbrev pub candlelight_devices : List (ℕ × ℕ)
candlelight_devices =
    (0x1d50, 0x606f)
    ∷ (0x1209, 0x2323)
    ∷ (0x1209, 0xca01)
    ∷ (0x1cd2, 0x606f)
    ∷ (0x16d0, 0x10b8)
    ∷ (0x16d0, 0x0f30)
    ∷ (0x1d50, 0x5740)
    ∷ (0x04d8, 0x0053)
    ∷ []

-- `.iter().any(|&(v, p)| v == dev_vid && p == dev_pid)`.
unfoldable pub is_listed : List (ℕ × ℕ) → ℕ → ℕ → Bool
is_listed [] dev_vid dev_pid = false
is_listed ((v, p) ∷ rest) dev_vid dev_pid =
    (v == dev_vid && p == dev_pid) || is_listed rest dev_vid dev_pid

-- The test of the search, from the asked vendor and product and the device's.
unfoldable pub is_match : Option ℕ → Option ℕ → ℕ → ℕ → Bool
unfolding is_listed
is_match (some v) (some p) dev_vid dev_pid = dev_vid == v && dev_pid == p
is_match (some v) none dev_vid dev_pid = dev_vid == v
is_match none pid dev_vid dev_pid = is_listed candlelight_devices dev_vid dev_pid

-- How `open` can end other than well: an error, or a panic.
pub data Stop : Type 0 where
  raised : GsUsbError → Stop
  panic : Stop

-- `.map_err(|source| GsUsbError::ProtocolStep { step, source: source.into_usb_error() })`.
abbrev pub in_step : Text → GsUsbError → Stop
in_step step e = raised (protocol_step step (into_usb_error e))

-- `compute_bittiming(…).ok_or(GsUsbError::UnsupportedBitrate(bitrate))`.
abbrev pub timing_of : ℕ → Search → Result GsDeviceBittiming Stop
timing_of bitrate next = err (raised (unsupported_bitrate bitrate))
timing_of bitrate (found t) = ok t
timing_of bitrate panicked = err panic

-- `candidates.into_iter().nth(index)`.
unfoldable pub nth : {A : Type 0} → ℕ → List A → Option A
nth i [] = none
nth zero (x ∷ xs) = some x
nth (suc i) (x ∷ xs) = nth i xs

module _ (usb : Usb) where
  unfoldable pub candidates : usb.Bus → Option ℕ → Option ℕ → List usb.Device → List usb.Device
  unfolding is_match
  candidates b vid pid [] = []
  candidates b vid pid (d ∷ ds) =
      let rest = candidates b vid pid ds in
      elim (usb.device_ids b d) [
        | err e ↦ rest
        | ok ids ↦ if is_match vid pid ids.0 ids.1 then d ∷ rest else rest
      ]

  -- The rest of `open`, once there is a driver.
  unfoldable pub configure : GsUsbDriver usb.Handle → ℕ → Action usb.Bus Stop (Unit {0})
  unfolding clear_halt_conditions configure_host_format read_device_config read_bt_const
      set_bittiming set_mode
  configure d bitrate = do
    map_err raised (clear_halt_conditions usb d)
    map_err (in_step (text "host format negotiation")) (configure_host_format usb d)
    config ← map_err (in_step (text "device configuration read")) (read_device_config usb d)
    bt_const ← map_err (in_step (text "bit timing constants read")) (read_bt_const usb d)
    map_err (in_step (text "reset mode configuration")) (set_mode usb d mode_reset)
    timing ← λ b. (timing_of bitrate (compute_bittiming bitrate bt_const), b)
    map_err (in_step (text "bit timing configuration")) (set_bittiming usb d timing)
    map_err (in_step (text "normal mode configuration")) (set_mode usb d mode_start)

  -- `Drop::drop`.
  unfoldable pub drop : GsUsbDriver usb.Handle → usb.Bus → usb.Bus
  unfolding set_mode
  drop d b = (usb.release_interface d.handle d.interface_number (set_mode usb d mode_reset b).1).1

  -- The driver is dropped where its configuration fails.
  abbrev pub kept_or_dropped :
      GsUsbDriver usb.Handle
      → Result (Unit {0}) Stop × usb.Bus
      → Result (GsUsbDriver usb.Handle) Stop × usb.Bus
  kept_or_dropped d (ok u, b) = (ok d, b)
  kept_or_dropped d (err e, b) = (err e, drop d b)

  -- Linux only: an error of the test counts as no driver.
  unfoldable pub detach : Bool → usb.Handle → Action usb.Bus Stop (Unit {0})
  detach false h b = (ok tt, b)
  detach true h b =
      let active = usb.kernel_driver_active h 0 b in
      elim active.0 [
        | err e ↦ (ok tt, active.1)
        | ok is_active ↦
            if is_active
            then map_err (λ e. raised (usb_error e)) (usb.detach_kernel_driver h 0) active.1
            else (ok tt, active.1)
      ]

  abbrev pub driver_of : usb.Handle → GsUsbInterfaceInfo → GsUsbDriver usb.Handle
  driver_of h interface = record {
    handle = h;
    channel = 0;
    interface_number = interface.interface_number;
    bulk_in_endpoint = interface.bulk_in_endpoint;
    bulk_out_endpoint = interface.bulk_out_endpoint;
    echo_counter = 0;
  }

  -- The device's handle, with the interface claimed.
  unfoldable pub claimed : Bool → usb.Device → GsUsbInterfaceInfo → Action usb.Bus Stop usb.Handle
  unfolding detach
  claimed linux device interface = do
    h ← map_err (λ e. raised (usb_error e)) (usb.open_device device)
    detach linux h
    map_err (λ e. raised (usb_error e)) (usb.claim_interface h interface.interface_number)
    pure h

  -- `open` for the device that was selected.
  unfoldable pub open_selected :
      Bool → usb.Device → ℕ → Action usb.Bus Stop (GsUsbDriver usb.Handle)
  unfolding claimed configure drop
  open_selected linux device bitrate = do
    interface ← λ b. (
      elim (find_gsusb_interface usb b device) [ ok i ↦ ok i | err e ↦ err (raised (usb_error e)) ],
      b,
    )
    h ← claimed linux device interface
    λ b. kept_or_dropped (driver_of h interface) (configure (driver_of h interface) bitrate b)

  -- `GsUsbDriver::open`.
  unfoldable pub open_driver :
      Bool → ℕ → Option ℕ → Option ℕ → ℕ → Action usb.Bus Stop (GsUsbDriver usb.Handle)
  unfolding candidates nth open_selected
  open_driver linux index vid pid bitrate b = elim (usb.devices b) [
    | err e ↦ (err (raised (usb_error e)), b)
    | ok ds ↦ elim (nth index (candidates b vid pid ds)) [
      | none ↦ (err (raised (usb_error not_found)), b)
      | some device ↦ open_selected linux device bitrate b
    ]
  ]
