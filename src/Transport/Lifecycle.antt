-- ===== src/Transport/Lifecycle.antt =====
-- src/transport: how the four workers start and stop.
use cyphal_service.Common.{
  ℕ, ◌≡◌, refl, ap, Bool, true, false, Option, none, List, [], ◌∷◌, ◌++◌, Bool-cases, Option-cases,
  Result, Result-cases, ok, err, inl, inr,
}
use cyphal_service.Config.{UdpConfig, SerialConfig, CanConfig}
use cyphal_service.Pnp.Sqlite.{Sqlite}
use cyphal_service.Pnp.Open.{Files}
use cyphal_service.Transport.Worker.{Cyphal, Worker, Round}
use cyphal_service.Transport.Startup.{◌>>=◌, NodeInfo, Registration}
use cyphal_service.Transport.Gsusb.Usb.{Usb}
use cyphal_service.Transport.Gsusb.Driver.{GsUsbDriver}
use cyphal_service.Transport.Gsusb.Driver.Open.{Stop, open_driver, drop}
use cyphal_service.Transport.Udp.Loop as Udp
use cyphal_service.Transport.Serial.Loop as Serial
use cyphal_service.Transport.Socketcan.Loop as Socketcan
use cyphal_service.Transport.Gsusb.Worker.Loop as Gsusb
use cyphal_service.Transport.Udp.Start as UdpStart
use cyphal_service.Transport.Serial.Start as SerialStart
use cyphal_service.Transport.Socketcan.Start as SocketcanStart
use cyphal_service.Transport.Gsusb.Worker.Start as GsusbStart

module _ (sq : Sqlite) (net : Cyphal) (token : Option net.Token) (i : ℕ) where
  udp_shutdown :
      (w : Worker sq.Conn net.Node) (before after : List Round) (r : Round)
      → r.shutdown ≡ true
      → Udp.run_loop sq net token i w (before ++ r ∷ after) ≡ Udp.run_loop sq net token i w before
  unfolding Udp.run_loop
  udp_shutdown w [] after r stop = rw (stop, Udp.run_loop) refl
  udp_shutdown w (q ∷ before) after r stop = elim (Bool-cases q.shutdown) [
    | inl halt ↦ rw (halt, Udp.run_loop) refl
    | inr go ↦
        rw (go, Udp.run_loop) (udp_shutdown (Udp.poll sq net token i w q) before after r stop)
  ]

  serial_shutdown :
      (w : Worker sq.Conn net.Node) (before after : List Round) (r : Round)
      → r.shutdown ≡ true
      → Serial.run_loop sq net token i w (before ++ r ∷ after)
        ≡ Serial.run_loop sq net token i w before
  unfolding Serial.run_loop
  serial_shutdown w [] after r stop = rw (stop, Serial.run_loop) refl
  serial_shutdown w (q ∷ before) after r stop = elim (Bool-cases q.shutdown) [
    | inl halt ↦ rw (halt, Serial.run_loop) refl
    | inr go ↦
        rw (go, Serial.run_loop)
          (serial_shutdown (Serial.poll sq net token i w q) before after r stop)
  ]

  socketcan_shutdown :
      (w : Worker sq.Conn net.Node) (before after : List Round) (r : Round)
      → r.shutdown ≡ true
      → Socketcan.run_loop sq net token i w (before ++ r ∷ after)
        ≡ Socketcan.run_loop sq net token i w before
  unfolding Socketcan.run_loop
  socketcan_shutdown w [] after r stop = rw (stop, Socketcan.run_loop) refl
  socketcan_shutdown w (q ∷ before) after r stop = elim (Bool-cases q.shutdown) [
    | inl halt ↦ rw (halt, Socketcan.run_loop) refl
    | inr go ↦
        rw (go, Socketcan.run_loop)
          (socketcan_shutdown (Socketcan.poll sq net token i w q) before after r stop)
  ]

  gsusb_shutdown :
      (w : Worker sq.Conn net.Node) (before after : List Round) (r : Round)
      → r.shutdown ≡ true
      → Gsusb.run_loop sq net token i w (before ++ r ∷ after)
        ≡ Gsusb.run_loop sq net token i w before
  unfolding Gsusb.run_loop
  gsusb_shutdown w [] after r stop = rw (stop, Gsusb.run_loop) refl
  gsusb_shutdown w (q ∷ before) after r stop = elim (Bool-cases q.shutdown) [
    | inl halt ↦ rw (halt, Gsusb.run_loop) refl
    | inr go ↦
        rw (go, Gsusb.run_loop) (gsusb_shutdown (Gsusb.poll sq net token i w q) before after r stop)
  ]

  -- Once a round finds the shutdown signal, each of the four workers leaves its loop: the state is
  -- that after the rounds before, and the commands, transfers and timeouts of that round and of all
  -- later ones change nothing and are answered by nothing.
  pub run_loop-shutdown :
      (w : Worker sq.Conn net.Node) (before after : List Round) (r : Round)
      → r.shutdown ≡ true
      → (Udp.run_loop sq net token i w (before ++ r ∷ after) ≡ Udp.run_loop sq net token i w before)
        × (Serial.run_loop sq net token i w (before ++ r ∷ after)
            ≡ Serial.run_loop sq net token i w before)
        × (Socketcan.run_loop sq net token i w (before ++ r ∷ after)
            ≡ Socketcan.run_loop sq net token i w before)
        × (Gsusb.run_loop sq net token i w (before ++ r ∷ after)
            ≡ Gsusb.run_loop sq net token i w before)
  run_loop-shutdown w before after r stop = (
    udp_shutdown w before after r stop,
    serial_shutdown w before after r stop,
    socketcan_shutdown w before after r stop,
    gsusb_shutdown w before after r stop,
  )

module _ (sq : Sqlite) (net : Cyphal) (files : Files sq.Conn) (calls : Registration net) where
  udp_invalid :
      (out : UdpStart.UdpOutside net) (cfg : UdpConfig) (random : List ℕ)
      → net.is_node_id cfg.node_id ≡ false
      → UdpStart.open_node sq net files calls out cfg random ≡ none
  unfolding UdpStart.open_node
  udp_invalid out cfg random bad = elim (Option-cases (UdpStart.parse_ipv4 cfg.interface)) [
    | inl unparsed ↦ rw (UdpStart.open_node, unparsed) refl
    | inr (iface, parsed) ↦ rw (UdpStart.open_node, parsed, bad) refl
  ]

  serial_invalid :
      (out : SerialStart.SerialOutside net) (cfg : SerialConfig) (random : List ℕ)
      → net.is_node_id cfg.node_id ≡ false
      → SerialStart.open_node sq net files calls out cfg random ≡ none
  unfolding SerialStart.open_node
  serial_invalid out cfg random bad = elim (Option-cases (out.open_port cfg.port cfg.baud_rate 1)) [
    | inl failed ↦ rw (SerialStart.open_node, failed) refl
    | inr (port, opened) ↦ rw (SerialStart.open_node, opened, bad) refl
  ]

  socketcan_invalid :
      (out : SocketcanStart.SocketcanOutside net) (cfg : CanConfig) (random : List ℕ)
      → net.is_node_id cfg.node_id ≡ false
      → SocketcanStart.open_node sq net files calls out cfg random ≡ none
  unfolding SocketcanStart.open_node
  socketcan_invalid out cfg random bad = elim (Option-cases cfg.interface) [
    | inl unset ↦ rw (SocketcanStart.open_node, unset) refl
    | inr (iface, set) ↦ elim (Option-cases (out.open_socket iface)) [
      | inl failed ↦ rw (SocketcanStart.open_node, set, failed) refl
      | inr (socket, opened) ↦ rw (SocketcanStart.open_node, set, opened, bad) refl
    ]
  ]

  module _ (usb : Usb) (linux : Bool)
      (new_node : ℕ → GsUsbDriver usb.Handle → NodeInfo → Option net.Node) where
    abbrev pub opening : CanConfig → usb.Bus → Result (GsUsbDriver usb.Handle) Stop × usb.Bus
    opening cfg b =
        open_driver usb linux cfg.usb_index (cfg.vid >>= GsusbStart.parse_hex_u16)
          (cfg.pid >>= GsusbStart.parse_hex_u16) cfg.bitrate b

    -- What is left of the bus: the driver, where it was opened, is dropped.
    abbrev pub given_up : Result (GsUsbDriver usb.Handle) Stop → usb.Bus → usb.Bus
    given_up (ok driver) b = drop usb driver b
    given_up (err e) b = b

    gsusb_invalid :
        (cfg : CanConfig) (random : List ℕ) (b : usb.Bus)
        → net.is_node_id cfg.node_id ≡ false
        → GsusbStart.open_node sq net files calls usb linux new_node cfg random b
          ≡ (none, given_up (opening cfg b).0 (opening cfg b).1)
    unfolding GsusbStart.open_node
    gsusb_invalid cfg random b bad = elim (Result-cases (opening cfg b).0) [
      | inl (driver, opened) ↦ rw (GsusbStart.open_node, opened, bad) refl
      | inr (e, failed) ↦ rw (GsusbStart.open_node, failed) refl
    ]

    -- Where the configured node ID is none of its transport's, none of the four workers gets to its
    -- loop, whatever else could be opened; a gs_usb device that was opened for it is dropped again.
    pub run_worker-invalid :
        (udp_out : UdpStart.UdpOutside net) (serial_out : SerialStart.SerialOutside net)
        (can_out : SocketcanStart.SocketcanOutside net) (u : UdpConfig) (s : SerialConfig)
        (c : CanConfig) (random : List ℕ) (now : ℕ) (b : usb.Bus) (rounds : List Round)
        → net.is_node_id u.node_id ≡ false
        → net.is_node_id s.node_id ≡ false
        → net.is_node_id c.node_id ≡ false
        → (UdpStart.run_worker sq net files calls udp_out u random now rounds ≡ none)
          × (SerialStart.run_worker sq net files calls serial_out s random now rounds ≡ none)
          × (SocketcanStart.run_worker sq net files calls can_out c random now rounds ≡ none)
          × (GsusbStart.run_worker sq net files calls usb linux new_node c random now b rounds
              ≡ none)
          × ((GsusbStart.open_node sq net files calls usb linux new_node c random b).1
              ≡ given_up (opening c b).0 (opening c b).1)
    unfolding UdpStart.run_worker SerialStart.run_worker SocketcanStart.run_worker
        GsusbStart.run_worker
    run_worker-invalid udp_out serial_out can_out u s c random now b rounds bad_u bad_s bad_c = (
      rw (udp_invalid udp_out u random bad_u, UdpStart.run_worker) refl,
      rw (serial_invalid serial_out s random bad_s, SerialStart.run_worker) refl,
      rw (socketcan_invalid can_out c random bad_c, SocketcanStart.run_worker) refl,
      rw (gsusb_invalid c random b bad_c, GsusbStart.run_worker) refl,
      ap (λ p. p.1) (gsusb_invalid c random b bad_c),
    )
