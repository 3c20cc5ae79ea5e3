-- ===== src/Transport/Gsusb/Driver/Opened.antt =====
-- src/transport/can_gsusb.rs: what a call of `GsUsbDriver::open` has told devices, however it ends.
use mathlib.Core.List.{append-nil, append_assoc}
use cyphal_service.Common.{
  ℕ, ◌≡◌, refl, sym, ◌∙◌, ap, Bool, true, false, List, [], ◌∷◌, ◌++◌, Result, ok, err, Option, inl,
  inr, Result-cases, Option-cases, Bool-cases, subst,
}
use cyphal_service.Common.Action.{Action, follow, ◌>>=◌, map_err, pure}
use cyphal_service.Transport.Gsusb.Usb.{UsbError, Usb, Account}
use cyphal_service.Transport.Gsusb.Interfaces.{GsUsbInterfaceInfo}
use cyphal_service.Transport.Gsusb.Driver.{usb_error, GsUsbDriver}
use cyphal_service.Transport.Gsusb.Driver.Requests.{mode_reset, set_mode}
use cyphal_service.Transport.Gsusb.Driver.Open.{
  Stop, raised, configure, drop, kept_or_dropped, detach, driver_of, claimed, open_selected,
  open_driver, candidates, nth,
}
use cyphal_service.Transport.Gsusb.Driver.Growth.{
  Write, Conforms, NotStarted, After, NotStarted-append, Grows, grows_quiet, grows_map_err, quietly,
}
use cyphal_service.Transport.Gsusb.Driver.Configured.{
  set_up, configure-Grows, set_mode_reset-NotStarted,
}

module _ {usb : Usb} (acc : Account usb) where
  -- The writes of a call that opens a driver, by its result.
  abbrev Opened : ℕ → List Write → Result (GsUsbDriver usb.Handle) Stop → Type 0
  Opened bitrate ws (ok d) = Conforms (set_up acc d bitrate) ws
  Opened bitrate ws (err e) = NotStarted ws

  abbrev Opens : ℕ → Action usb.Bus Stop (GsUsbDriver usb.Handle) → Type 0
  Opens bitrate m =
      (b : usb.Bus)
      → (ws : List Write) × (acc.accepted (m b).1 ≡ acc.accepted b ++ ws)
        × Opened bitrate ws (m b).0

  bind-Opens :
      {A : Type 0} (bitrate : ℕ) (m : Action usb.Bus Stop A)
      (f : A → Action usb.Bus Stop (GsUsbDriver usb.Handle))
      → Grows acc m []
      → ((a : A) → Opens bitrate (f a))
      → Opens bitrate (m >>= f)
  bind-Opens {A} bitrate m f h k b = next (h b).0 (m b).0 (h b).1 (h b).2
    where
      next :
          (vs : List Write) (r : Result A Stop)
          → acc.accepted (m b).1 ≡ acc.accepted b ++ vs
          → After [] vs r
          → (ws : List Write) × (acc.accepted (follow f r (m b).1).1 ≡ acc.accepted b ++ ws)
            × Opened bitrate ws (follow f r (m b).1).0
      next [] (ok a) same c =
          let g = k a (m b).1 in
          (g.0, g.1 ∙ ap (λ t. t ++ g.0) (same ∙ append-nil (acc.accepted b)), g.2)
      next (w ∷ vs) (ok a) same c = elim c [ ]
      next vs (err e) same c = (vs, same, c)

  detach-Grows : (linux : Bool) (h : usb.Handle) → Grows acc (detach usb linux h) []
  unfolding detach
  detach-Grows linux h b =
      ([], quiet linux ∙ sym (append-nil (acc.accepted b)), unit (detach usb linux h b).0)
    where
      quiet : (on : Bool) → acc.accepted (detach usb on h b).1 ≡ acc.accepted b
      quiet false = refl
      quiet true =
          let same = acc.after_active h 0 b in
          elim (Result-cases (usb.kernel_driver_active h 0 b).0) [
            | inl (is_active, got) ↦ elim (Bool-cases is_active) [
              | inl active ↦ rw (got, active, detach) (acc.after_detach h 0 _ ∙ same)
              | inr free ↦ rw (got, free, detach) same
            ]
            | inr (e, got) ↦ rw (got, detach) same
          ]

      unit : (r : Result (Unit {0}) Stop) → After [] [] r
      unit (ok u) = tt
      unit (err e) = tt

  -- A call of the bus that is no control write.
  plain :
      {A : Type 0} (m : Action usb.Bus UsbError A)
      → ((b : usb.Bus) → acc.accepted (m b).1 ≡ acc.accepted b)
      → Grows acc (map_err (λ e. raised (usb_error e)) m) []
  plain m h = grows_map_err acc (λ e. raised (usb_error e)) m [] (grows_quiet acc m h)

  claimed-Grows :
      (linux : Bool) (device : usb.Device) (i : GsUsbInterfaceInfo)
      → Grows acc (claimed usb linux device i) []
  unfolding claimed
  claimed-Grows linux device i =
      quietly acc _ [] (plain (usb.open_device device) (acc.after_open device)) λ h _ _.
        quietly acc _ [] (detach-Grows linux h) λ _ _ _.
          quietly acc (λ _. pure h) []
            (plain (usb.claim_interface h i.interface_number)
              (acc.after_claim h i.interface_number))
            λ _ _ _ b. ([], sym (append-nil (acc.accepted b)), tt)

  drop-NotStarted :
      (d : GsUsbDriver usb.Handle) (b : usb.Bus)
      → (ws : List Write) × (acc.accepted (drop usb d b) ≡ acc.accepted b ++ ws) × NotStarted ws
  unfolding drop
  drop-NotStarted d b =
      let g = set_mode_reset-NotStarted acc d b in
      (
        g.0,
        acc.after_release d.handle d.interface_number (set_mode usb d mode_reset b).1 ∙ g.1,
        g.2,
      )

  kept_or_dropped-Opens :
      (bitrate : ℕ) (d : GsUsbDriver usb.Handle)
      → Opens bitrate (λ b. kept_or_dropped usb d (configure usb d bitrate b))
  kept_or_dropped-Opens bitrate d b =
      let g = configure-Grows acc d bitrate b in
      next g.0 (configure usb d bitrate b).0 (configure usb d bitrate b).1 g.1 g.2
    where
      next :
          (ws : List Write) (r : Result (Unit {0}) Stop) (b' : usb.Bus)
          → acc.accepted b' ≡ acc.accepted b ++ ws
          → After (set_up acc d bitrate) ws r
          → (vs : List Write) × (acc.accepted (kept_or_dropped usb d (r, b')).1
              ≡ acc.accepted b ++ vs)
            × Opened bitrate vs (kept_or_dropped usb d (r, b')).0
      next ws (ok u) b' same k = (ws, same, k)
      next ws (err e) b' same k =
          let g = drop-NotStarted d b' in
          (
            ws ++ g.0,
            g.1 ∙ ap (λ t. t ++ g.0) same ∙ append_assoc (acc.accepted b) ws g.0,
            NotStarted-append ws g.0 k g.2,
          )

  open_selected-Opens :
      (linux : Bool) (device : usb.Device) (bitrate : ℕ)
      → Opens bitrate (open_selected usb linux device bitrate)
  unfolding open_selected
  open_selected-Opens linux device bitrate =
      bind-Opens bitrate _ _ (grows_quiet acc _ λ _. refl) λ i.
        bind-Opens bitrate _ _ (claimed-Grows linux device i)
          λ h. kept_or_dropped-Opens bitrate (driver_of usb h i)

  open_driver-Opens :
      (linux : Bool) (index : ℕ) (vid pid : Option ℕ) (bitrate : ℕ)
      → Opens bitrate (open_driver usb linux index vid pid bitrate)
  unfolding open_driver
  open_driver-Opens linux index vid pid bitrate b = elim (Result-cases (usb.devices b)) [
    | inl (ds, got) ↦ elim (Option-cases (nth index (candidates usb b vid pid ds))) [
      | inl nothing ↦ rw (got, nothing, open_driver) ([], sym (append-nil (acc.accepted b)), tt)
      | inr (device, chosen) ↦
          rw (got, chosen, open_driver) (open_selected-Opens linux device bitrate b)
    ]
    | inr (e, failed) ↦ rw (failed, open_driver) ([], sym (append-nil (acc.accepted b)), tt)
  ]

  -- Where `open` fails or panics, no device has accepted a write that starts it: what was accepted,
  -- the reset of the dropped driver included, starts none.
  pub open_driver-NotStarted :
      (linux : Bool) (index : ℕ) (vid pid : Option ℕ) (bitrate : ℕ) (b : usb.Bus) (e : Stop)
      → (open_driver usb linux index vid pid bitrate b).0 ≡ err e
      → (ws : List Write) × (acc.accepted (open_driver usb linux index vid pid bitrate b).1
          ≡ acc.accepted b ++ ws)
        × NotStarted ws
  open_driver-NotStarted linux index vid pid bitrate b e failed =
      let g = open_driver-Opens linux index vid pid bitrate b in
      (g.0, g.1, subst (Opened bitrate g.0) failed g.2)
