-- ===== src/Transport/Gsusb/Driver/Frames.antt =====
-- src/transport/can_gsusb.rs: sending and receiving frames by the driver. A reading of the clock is
-- an argument, and so is the order of times, which wraps.
use cyphal_service.Common.{ℕ, ◌+◌, ◌%◌, ◌^◌, Bool, none, some, if◌then◌else◌, ok, err}
use cyphal_service.Transport.Gsusb.Frame.{Frame, encode_frame, decode_frame, gs_host_frame_size}
use cyphal_service.Transport.Gsusb.Usb.{UsbError, timeout, Usb}
use cyphal_service.Transport.Gsusb.Driver.{
  GsUsbError, usb_error, invalid_frame, GsUsbDriver, filled,
}

-- `nb::Result`.
pub data Nb (A : Type 0) : Type 0 where
  done : A → Nb A
  would_block : Nb A
  failed : GsUsbError → Nb A

abbrev pub is_timeout : UsbError → Bool
is_timeout timeout = Bool.true
is_timeout e = Bool.false

abbrev pub failure : {A : Type 0} → UsbError → Nb A
failure e = if is_timeout e then would_block else failed (usb_error e)

module _ (usb : Usb) where
  -- Nothing is ever handed back, since the device takes one frame at a time.
  unfoldable pub transmit :
      (ℕ → ℕ → Bool)
      → GsUsbDriver usb.Handle
      → Frame
      → ℕ
      → usb.Bus
      → Nb (Unit {0}) × GsUsbDriver usb.Handle × usb.Bus
  unfolding encode_frame
  transmit is_before d frame now b =
      let d' = record d { echo_counter = (d.echo_counter + 1) % 2 ^ 32 } in
      let w = usb.write_bulk d.handle d.bulk_out_endpoint (encode_frame frame d.echo_counter) b in
      if is_before frame.timestamp now
      then (done tt, d, b)
      else (elim w.0 [ ok n ↦ done tt | err e ↦ failure e ], d', w.1)

  -- However many bytes were read, the whole buffer is decoded.
  unfoldable pub receive : (ℕ → Bool) → GsUsbDriver usb.Handle → ℕ → usb.Bus → Nb Frame × usb.Bus
  unfolding decode_frame
  receive is_can_id d now b =
      let r = usb.read_bulk d.handle d.bulk_in_endpoint gs_host_frame_size b in
      (
        elim r.0 [
          | err e ↦ failure e
          | ok bytes ↦ elim (decode_frame is_can_id (filled gs_host_frame_size bytes) now) [
            | some frame ↦ done frame
            | none ↦ failed invalid_frame
          ]
        ],
        r.1,
      )
