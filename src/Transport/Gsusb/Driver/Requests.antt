-- ===== src/Transport/Gsusb/Driver/Requests.antt =====
-- src/transport/can_gsusb.rs: the driver's control requests.
use cyphal_service.Common.{ℕ, ◌+◌, ◌*◌, ◌^◌, List, [], ◌∷◌, ◌++◌}
use cyphal_service.Common.Action.{Action, ◌>>=◌, ◌>>◌, pure, map_err}
use cyphal_service.Transport.Gsusb.Frame.{to_le_bytes, byte_at}
use cyphal_service.Transport.Gsusb.Bittiming.{GsDeviceBtConst, GsDeviceBittiming}
use cyphal_service.Transport.Gsusb.Usb.{Usb}
use cyphal_service.Transport.Gsusb.Driver.{
  GsUsbError, usb_error, GsUsbDriver, Candidate, write_control_candidates, read_control_candidates,
}

-- GS_USB_BREQ_*.
abbrev pub host_format : ℕ
host_format = 0

abbrev pub set_bittiming_request : ℕ
set_bittiming_request = 1

abbrev pub set_mode_request : ℕ
set_mode_request = 2

abbrev pub bt_const_request : ℕ
bt_const_request = 4

abbrev pub device_config_request : ℕ
device_config_request = 5

-- GS_CAN_MODE_RESET and GS_CAN_MODE_START.
abbrev pub mode_reset : ℕ
mode_reset = 0

abbrev pub mode_start : ℕ
mode_start = 1

-- USB_REQ_*_VENDOR_*.
abbrev pub out_device : ℕ
out_device = 0x40

abbrev pub in_device : ℕ
in_device = 0xC0

abbrev pub out_interface : ℕ
out_interface = 0x41

abbrev pub in_interface : ℕ
in_interface = 0xC1

-- `u32::from_le_bytes(buf[i..i + 4])`.
abbrev pub le_at : List ℕ → ℕ → ℕ
le_at buf i =
    byte_at buf i
    + 2 ^ 8 * byte_at buf (i + 1)
    + 2 ^ 16 * byte_at buf (i + 2)
    + 2 ^ 24 * byte_at buf (i + 3)

pub record GsDeviceConfig : Type 0 where
  pub reserved1 : ℕ
  pub reserved2 : ℕ
  pub reserved3 : ℕ
  pub icount : ℕ
  pub sw_version : ℕ
  pub hw_version : ℕ

-- The ten fields of a device's limits, in order.
unfoldable pub bt_const_of : List ℕ → GsDeviceBtConst
bt_const_of buf = record {
  feature = le_at buf 0;
  fclk_can = le_at buf 4;
  tseg1_min = le_at buf 8;
  tseg1_max = le_at buf 12;
  tseg2_min = le_at buf 16;
  tseg2_max = le_at buf 20;
  sjw_max = le_at buf 24;
  brp_min = le_at buf 28;
  brp_max = le_at buf 32;
  brp_inc = le_at buf 36;
}

unfoldable pub bittiming_bytes : GsDeviceBittiming → List ℕ
bittiming_bytes t =
    to_le_bytes t.prop_seg
    ++ (to_le_bytes t.phase_seg1
        ++ (to_le_bytes t.phase_seg2 ++ (to_le_bytes t.sjw ++ to_le_bytes t.brp)))

-- The mode, and no flags.
unfoldable pub mode_bytes : ℕ → List ℕ
mode_bytes mode = to_le_bytes mode ++ to_le_bytes 0

module _ (usb : Usb) (d : GsUsbDriver usb.Handle) where
  unfoldable pub clear_halt_conditions : Action usb.Bus GsUsbError (Unit {0})
  clear_halt_conditions = do
    map_err usb_error (usb.clear_halt d.handle d.bulk_in_endpoint)
    map_err usb_error (usb.clear_halt d.handle d.bulk_out_endpoint)

  -- The forms in which a request for the whole interface is tried.
  abbrev pub interface_candidates : ℕ → ℕ → List Candidate
  interface_candidates by_interface by_device =
      (by_interface, 0, 0)
      ∷ (by_interface, 0, d.interface_number)
      ∷ (by_device, 0, d.interface_number)
      ∷ (by_device, 0, 0)
      ∷ []

  -- The forms in which a request for the channel is tried.
  abbrev pub channel_candidates : ℕ → ℕ → List Candidate
  channel_candidates by_interface by_device =
      (by_interface, d.channel, 0)
      ∷ (by_device, d.channel, 0)
      ∷ (by_device, 0, d.channel)
      ∷ (by_interface, 0, d.channel)
      ∷ []

  unfoldable pub configure_host_format : Action usb.Bus GsUsbError (Unit {0})
  configure_host_format =
      write_control_candidates usb d.handle host_format
        (interface_candidates out_interface out_device) (to_le_bytes 0xbeef)

  unfoldable pub read_device_config : Action usb.Bus GsUsbError GsDeviceConfig
  read_device_config = do
    buf ←
        read_control_candidates usb d.handle device_config_request
          (interface_candidates in_interface in_device) 12
    pure (record {
      reserved1 = byte_at buf 0;
      reserved2 = byte_at buf 1;
      reserved3 = byte_at buf 2;
      icount = byte_at buf 3;
      sw_version = le_at buf 4;
      hw_version = le_at buf 8;
    })

  unfoldable pub read_bt_const : Action usb.Bus GsUsbError GsDeviceBtConst
  unfolding bt_const_of
  read_bt_const = do
    buf ←
        read_control_candidates usb d.handle bt_const_request
          (channel_candidates in_interface in_device) 40
    pure (bt_const_of buf)

  unfoldable pub set_bittiming : GsDeviceBittiming → Action usb.Bus GsUsbError (Unit {0})
  unfolding bittiming_bytes
  set_bittiming t =
      write_control_candidates usb d.handle set_bittiming_request
        (channel_candidates out_interface out_device) (bittiming_bytes t)

  unfoldable pub set_mode : ℕ → Action usb.Bus GsUsbError (Unit {0})
  unfolding mode_bytes
  set_mode mode =
      write_control_candidates usb d.handle set_mode_request
        (channel_candidates out_interface out_device) (mode_bytes mode)
