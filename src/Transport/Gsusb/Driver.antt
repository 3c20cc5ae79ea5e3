-- ===== src/Transport/Gsusb/Driver.antt =====
-- src/transport/can_gsusb.rs: `GsUsbDriver`. The host is little-endian, so that a structure's bytes
-- in memory are those of its fields, lowest first. Logging is left out.
pub mod Requests
pub mod Open
pub mod Frames
pub mod Growth
mod Candidates
pub mod Configured
pub mod Opened
pub mod Echo
use cyphal_service.Common.{
  ℕ, ◌-◌, ◌%◌, ◌^◌, Bool, true, false, Option, none, some, List, [], ◌∷◌, ◌++◌, leb, if◌then◌else◌,
  length, take, replicate, Text, text, Result, ok, err,
}
use cyphal_service.Common.Action.{Action, ◌>>=◌, ◌>>◌, pure, raise, map_err}
use cyphal_service.Transport.Gsusb.Usb.{UsbError, pipe, other, Setup, Usb}

-- `GsUsbError`.
pub data GsUsbError : Type 0 where
  usb_error : UsbError → GsUsbError
  invalid_frame : GsUsbError
  unsupported_bitrate : ℕ → GsUsbError
  protocol_step : Text → UsbError → GsUsbError

unfoldable pub into_usb_error : GsUsbError → UsbError
into_usb_error (usb_error e) = e
into_usb_error invalid_frame = other
into_usb_error (unsupported_bitrate b) = other
into_usb_error (protocol_step step e) = e

pub record GsUsbDriver (Handle : Type 0) : Type 0 where
  pub handle : Handle
  pub channel : ℕ
  pub interface_number : ℕ
  pub bulk_in_endpoint : ℕ
  pub bulk_out_endpoint : ℕ
  pub echo_counter : ℕ

-- A request type, a value and an index.
abbrev pub Candidate : Type 0
Candidate = ℕ × ℕ × ℕ

abbrev pub setup_of : ℕ → Candidate → Setup
setup_of request (request_type, value, index) = record {
  request_type = request_type;
  request = request;
  value = value;
  index = index;
}

-- The device does not know the request in this form.
abbrev pub is_pipe : UsbError → Bool
is_pipe pipe = true
is_pipe e = false

-- A buffer of `n` zeros into which `bytes` were read.
abbrev pub filled : ℕ → List ℕ → List ℕ
filled n bytes = take n bytes ++ replicate (n - length bytes) 0

-- `Err(last_error.unwrap_or(rusb::Error::Other).into())`.
abbrev pub exhausted : Option UsbError → GsUsbError
exhausted none = usb_error other
exhausted (some e) = usb_error e

module _ (usb : Usb) where
  -- The loop of `write_control_candidates`, from its last error on.
  unfoldable pub write_from :
      usb.Handle
      → ℕ
      → List Candidate
      → List ℕ
      → Option UsbError
      → Action usb.Bus GsUsbError (Unit {0})
  write_from h request [] bytes last_error b = raise (exhausted last_error) b
  write_from h request (c ∷ cs) bytes last_error b =
      let w = usb.write_control h (setup_of request c) bytes b in
      let later = write_from h request cs bytes (some pipe) w.1 in
      elim w.0 [
        | ok n ↦ (ok tt, w.1)
        | err e ↦ if is_pipe e then later else (err (usb_error e), w.1)
      ]

  unfoldable pub write_control_candidates :
      usb.Handle → ℕ → List Candidate → List ℕ → Action usb.Bus GsUsbError (Unit {0})
  unfolding write_from
  write_control_candidates h request cs bytes = write_from h request cs bytes none

  -- The loop of `read_control_candidates`, for a buffer of `n` bytes.
  unfoldable pub read_from :
      usb.Handle → ℕ → List Candidate → ℕ → Option UsbError → Action usb.Bus GsUsbError (List ℕ)
  read_from h request [] n last_error b = raise (exhausted last_error) b
  read_from h request (c ∷ cs) n last_error b =
      let r = usb.read_control h (setup_of request c) n b in
      let later = read_from h request cs n (some pipe) r.1 in
      elim r.0 [
        | ok bytes ↦
            if leb n (length bytes)
            then (ok (filled n bytes), r.1)
            else (err (usb_error other), r.1)
        | err e ↦ if is_pipe e then later else (err (usb_error e), r.1)
      ]

  unfoldable pub read_control_candidates :
      usb.Handle → ℕ → List Candidate → ℕ → Action usb.Bus GsUsbError (List ℕ)
  unfolding read_from
  read_control_candidates h request cs n = read_from h request cs n none
