-- ===== src/Transport/Gsusb/Driver/Configured.antt =====
-- src/transport/can_gsusb.rs: what `GsUsbDriver::open` has told the device once it is done.
use mathlib.Core.List.{append-nil}
use cyphal_service.Common.{ℕ, ◌≡◌, sym, ◌∙◌, ap, List, [], ◌∷◌, ◌++◌, ◌≢◌, arith, Result, ok, err}
use cyphal_service.Common.Action.{with_error}
use cyphal_service.Transport.Gsusb.Frame.{to_le_bytes}
use cyphal_service.Transport.Gsusb.Bittiming.{
  GsDeviceBtConst, GsDeviceBittiming, Search, next, found, panicked, compute_bittiming,
}
use cyphal_service.Transport.Gsusb.Bittiming.Sound.{IsTimingFor, compute_bittiming-IsTimingFor}
use cyphal_service.Transport.Gsusb.Usb.{Usb, Account}
use cyphal_service.Transport.Gsusb.Driver.{GsUsbError, usb_error, GsUsbDriver}
use cyphal_service.Transport.Gsusb.Driver.Requests.{
  host_format, set_bittiming_request, set_mode_request, mode_reset, mode_start,
  interface_candidates, channel_candidates, bittiming_bytes, mode_bytes, out_device, out_interface,
  in_device, in_interface, device_config_request, bt_const_request, clear_halt_conditions,
  configure_host_format, read_device_config, read_bt_const, set_bittiming, set_mode,
}
use cyphal_service.Transport.Gsusb.Driver.Open.{Stop, timing_of, configure}
use cyphal_service.Transport.Gsusb.Driver.Candidates.{
  write_control_candidates-Grows, read_control_candidates-Grows,
}
use cyphal_service.Transport.Gsusb.Driver.Growth.{
  Write, IsRequest, IsStart, NotStarted, After, NoStart-none, NoStart-one, Grows, quietly, telling,
  grows_quiet, grows_bind, grows_map_err,
}

reset_not_start : mode_bytes mode_reset ≢ mode_bytes mode_start
unfolding mode_bytes
reset_not_start h = omega (arith, ap first h)
  where
    first : List ℕ → ℕ
    first [] = 0
    first (b ∷ bs) = b

module _ {usb : Usb} (acc : Account usb) (d : GsUsbDriver usb.Handle) where
  -- A timing that gives the bit rate within the limits that the device reported.
  abbrev pub IsTimingWrite : ℕ → Write → Type 0
  IsTimingWrite bitrate w =
      (bt : GsDeviceBtConst) × (t : GsDeviceBittiming) × (b : usb.Bus) × ((read_bt_const usb d b).0
        ≡ ok bt)
      × IsTimingFor bitrate bt t
      × IsRequest set_bittiming_request (bittiming_bytes t) w

  -- The order of the writes that set a device up.
  abbrev pub set_up : ℕ → List (Write → Type 0)
  set_up bitrate =
      IsRequest host_format (to_le_bytes 0xbeef)
      ∷ IsRequest set_mode_request (mode_bytes mode_reset)
      ∷ IsTimingWrite bitrate
      ∷ IsStart
      ∷ []

  clear_halt_conditions-Grows : Grows acc (clear_halt_conditions usb d) []
  unfolding clear_halt_conditions
  clear_halt_conditions-Grows =
      grows_bind acc _ _ [] [] NoStart-none
        (grows_map_err acc usb_error _ []
          (grows_quiet acc _ (acc.after_clear d.handle d.bulk_in_endpoint)))
        (λ _ _ _.
          grows_map_err acc usb_error _ []
            (grows_quiet acc _ (acc.after_clear d.handle d.bulk_out_endpoint)))

  configure_host_format-Grows :
      Grows acc (configure_host_format usb d) (IsRequest host_format (to_le_bytes 0xbeef) ∷ [])
  unfolding configure_host_format
  configure_host_format-Grows =
      write_control_candidates-Grows acc d.handle host_format
        (interface_candidates usb d out_interface out_device) (to_le_bytes 0xbeef)

  set_mode-Grows :
      (mode : ℕ)
      → Grows acc (set_mode usb d mode) (IsRequest set_mode_request (mode_bytes mode) ∷ [])
  unfolding set_mode
  set_mode-Grows mode =
      write_control_candidates-Grows acc d.handle set_mode_request
        (channel_candidates usb d out_interface out_device) (mode_bytes mode)

  set_bittiming-Grows :
      (t : GsDeviceBittiming)
      → Grows acc (set_bittiming usb d t) (IsRequest set_bittiming_request (bittiming_bytes t) ∷ [])
  unfolding set_bittiming
  set_bittiming-Grows t =
      write_control_candidates-Grows acc d.handle set_bittiming_request
        (channel_candidates usb d out_interface out_device) (bittiming_bytes t)

  read_device_config-Grows : Grows acc (read_device_config usb d) []
  unfolding read_device_config
  read_device_config-Grows =
      grows_bind acc _ _ [] [] NoStart-none
        (read_control_candidates-Grows acc d.handle device_config_request
          (interface_candidates usb d in_interface in_device) 12)
        (λ _ _ _ b. ([], sym (append-nil (acc.accepted b)), tt))

  read_bt_const-Grows : Grows acc (read_bt_const usb d) []
  unfolding read_bt_const
  read_bt_const-Grows =
      grows_bind acc _ _ [] [] NoStart-none
        (read_control_candidates-Grows acc d.handle bt_const_request
          (channel_candidates usb d in_interface in_device) 40)
        (λ _ _ _ b. ([], sym (append-nil (acc.accepted b)), tt))

  timing-Grows :
      (bitrate : ℕ) (s : Search) → Grows acc {E = Stop} (λ b. (timing_of bitrate s, b)) []
  timing-Grows bitrate next b = ([], sym (append-nil (acc.accepted b)), tt)
  timing-Grows bitrate (found t) b = ([], sym (append-nil (acc.accepted b)), tt)
  timing-Grows bitrate panicked b = ([], sym (append-nil (acc.accepted b)), tt)

  timing_of-found :
      (bitrate : ℕ) (s : Search) (t : GsDeviceBittiming) → timing_of bitrate s ≡ ok t → s ≡ found t
  timing_of-found bitrate next t h = cc
  timing_of-found bitrate (found t) u h = cc
  timing_of-found bitrate panicked t h = cc

  -- The value of a call whose errors are relabelled is the call's.
  with_error-ok :
      {E F A : Type 0} (f : E → F) (r : Result A E) (a : A) → with_error f r ≡ ok a → r ≡ ok a
  with_error-ok f (ok a) b h = cc
  with_error-ok f (err e) b h = cc

  set_bittiming-IsTimingWrite :
      (bitrate : ℕ) (bt : GsDeviceBtConst) (t : GsDeviceBittiming) (b : usb.Bus)
      → (read_bt_const usb d b).0 ≡ ok bt
      → compute_bittiming bitrate bt ≡ found t
      → Grows acc (set_bittiming usb d t) (IsTimingWrite bitrate ∷ [])
  set_bittiming-IsTimingWrite bitrate bt t b got h c =
      let g = set_bittiming-Grows t c in (g.0, g.1, explained g.0 (set_bittiming usb d t c).0 g.2)
    where
      explained :
          (ws : List Write) (r : Result (Unit {0}) GsUsbError)
          → After (IsRequest set_bittiming_request (bittiming_bytes t) ∷ []) ws r
          → After (IsTimingWrite bitrate ∷ []) ws r
      explained ws (err e) k = k
      explained [] (ok u) k = k
      explained (w ∷ ws) (ok u) k =
          ((bt, t, b, got, compute_bittiming-IsTimingFor bitrate bt t h, k.0), k.1)

  -- What is left of `set_up` after the first write, and after the second.
  abbrev after_format : ℕ → List (Write → Type 0)
  after_format bitrate =
      IsRequest set_mode_request (mode_bytes mode_reset) ∷ IsTimingWrite bitrate ∷ IsStart ∷ []

  abbrev after_reset : ℕ → List (Write → Type 0)
  after_reset bitrate = IsTimingWrite bitrate ∷ IsStart ∷ []

  pub configure-Grows : (bitrate : ℕ) → Grows acc (configure usb d bitrate) (set_up bitrate)
  unfolding configure
  configure-Grows bitrate =
      quietly acc _ (set_up bitrate) (grows_map_err acc _ _ [] clear_halt_conditions-Grows) λ _ _ _.
        telling acc _ (IsRequest host_format (to_le_bytes 0xbeef)) (after_format bitrate)
          (λ w h s. omega (arith, h.0, s.0))
          (grows_map_err acc _ _ (_ ∷ []) configure_host_format-Grows)
          λ _ _ _.
            quietly acc _ (after_format bitrate) (grows_map_err acc _ _ [] read_device_config-Grows)
              λ _ _ _.
                quietly acc _ (after_format bitrate) (grows_map_err acc _ _ [] read_bt_const-Grows)
                  λ bt b got.
                    telling acc _ (IsRequest set_mode_request (mode_bytes mode_reset))
                      (after_reset bitrate) (λ w h s. reset_not_start (sym h.1 ∙ s.1))
                      (grows_map_err acc _ _ (_ ∷ []) (set_mode-Grows mode_reset))
                      λ _ _ _.
                        quietly acc _ (after_reset bitrate)
                          (timing-Grows bitrate (compute_bittiming bitrate bt))
                          λ t _ is_found.
                            telling acc _ (IsTimingWrite bitrate) (IsStart ∷ [])
                              (λ w h s. omega (arith, h.5.0, s.0))
                              (grows_map_err acc _ _ (_ ∷ []) (
                                set_bittiming-IsTimingWrite bitrate bt t b
                                  (with_error-ok _ _ bt got)
                                  (timing_of-found bitrate _ t is_found)))
                              λ _ _ _. grows_map_err acc _ _ (_ ∷ []) (set_mode-Grows mode_start)

  pub set_mode_reset-NotStarted :
      (b : usb.Bus)
      → (ws : List Write) × (acc.accepted (set_mode usb d mode_reset b).1 ≡ acc.accepted b ++ ws)
        × NotStarted ws
  set_mode_reset-NotStarted b =
      let g = set_mode-Grows mode_reset b in
      (g.0, g.1, quiet g.0 (set_mode usb d mode_reset b).0 g.2)
    where
      quiet :
          (ws : List Write) (r : Result (Unit {0}) GsUsbError)
          → After (IsRequest set_mode_request (mode_bytes mode_reset) ∷ []) ws r
          → NotStarted ws
      quiet ws (err e) k = k
      quiet ws (ok u) k = NoStart-one _ (λ w h s. reset_not_start (sym h.1 ∙ s.1)) ws k
