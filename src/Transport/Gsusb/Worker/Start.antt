-- ===== src/Transport/Gsusb/Worker/Start.antt =====
-- src/transport/can_gsusb.rs: `run_worker`, from its configuration on, with `parse_hex_u16`.
use cyphal_service.Config.{CanConfig}
use cyphal_service.Commands.Texts.{trim}
use cyphal_service.Transport.Gsusb.Usb.{Usb}
use cyphal_service.Transport.Gsusb.Driver.{GsUsbDriver}
use cyphal_service.Transport.Gsusb.Driver.Open.{open_driver, drop}
use cyphal_service.Transport.Gsusb.Worker.Loop.{init_worker, run_loop}
use cyphal_service.Common.{
  ℕ, ◌+◌, ◌-◌, ◌*◌, ◌^◌, Bool, ◌&&◌, ◌||◌, Option, none, some, List, [], ◌∷◌, leb, ltb, ◌==◌,
  if◌then◌else◌, Text, ok, err,
}
use cyphal_service.Pnp.Sqlite.{Sqlite}
use cyphal_service.Pnp.Open.{Files}
use cyphal_service.Transport.Worker.{Cyphal, Worker, Round}
use cyphal_service.Transport.Startup.{
  ◌>>=◌, checked, NodeInfo, make_node_info, Registration, prepare,
}

-- The value of a hexadecimal digit.
abbrev pub hex_value : ℕ → Option ℕ
hex_value c =
    if leb b'0' c && leb c b'9'
    then some (c - b'0')
    else (if leb b'a' c && leb c b'f'
        then some (c - b'a' + 10)
        else (if leb b'A' c && leb c b'F' then some (c - b'A' + 10) else none))

-- The digits of a `u16`, from the value of those before: `checked_mul` and `checked_add`.
unfoldable pub scan_hex : ℕ → Text → Option ℕ
scan_hex n [] = some n
scan_hex n (c ∷ cs) = elim (hex_value c) [
  | none ↦ none
  | some v ↦ if ltb (n * 16 + v) (2 ^ 16) then scan_hex (n * 16 + v) cs else none
]

-- `u16::from_str_radix(s, 16)`: one plus sign may stand before the digits.
unfoldable pub from_hex : Text → Option ℕ
unfolding scan_hex
from_hex [] = none
from_hex (c ∷ []) = if c == b'+' then none else scan_hex 0 (c ∷ [])
from_hex (c ∷ d ∷ cs) = scan_hex 0 (if c == b'+' then d ∷ cs else c ∷ d ∷ cs)

abbrev pub strip_hex_prefix : Text → Text
strip_hex_prefix [] = []
strip_hex_prefix (a ∷ []) = a ∷ []
strip_hex_prefix (a ∷ b ∷ s) = if a == b'0' && (b == b'x' || b == b'X') then s else a ∷ b ∷ s

unfoldable pub parse_hex_u16 : Text → Option ℕ
unfolding from_hex trim
parse_hex_u16 s = from_hex (strip_hex_prefix (trim s))

module _ (sq : Sqlite) (net : Cyphal) (files : Files sq.Conn) (calls : Registration net) (usb : Usb)
    (linux : Bool) (new_node : ℕ → GsUsbDriver usb.Handle → NodeInfo → Option net.Node) where
  -- A driver that got into no node is dropped.
  abbrev pub or_dropped :
      GsUsbDriver usb.Handle → usb.Bus → Option net.Node → Option net.Node × usb.Bus
  or_dropped driver b none = (none, drop usb driver b)
  or_dropped driver b (some node) = (some node, b)

  -- The node, unless `run_worker` returns before it is there, or panics.
  unfoldable pub open_node : CanConfig → List ℕ → usb.Bus → Option net.Node × usb.Bus
  unfolding parse_hex_u16 open_driver drop make_node_info
  open_node cfg random b =
      let vid = cfg.vid >>= parse_hex_u16 in
      let pid = cfg.pid >>= parse_hex_u16 in
      let opened = open_driver usb linux cfg.usb_index vid pid cfg.bitrate b in
      elim opened.0 [
        | err e ↦ (none, opened.1)
        | ok driver ↦ or_dropped driver opened.1 (
            checked net.is_node_id cfg.node_id >>= λ node_id.
            new_node node_id driver (make_node_info cfg.name random))
      ]

  -- `now` is the reading of the clock before the loop. None: the worker never got to its loop.
  unfoldable pub run_worker :
      CanConfig → List ℕ → ℕ → usb.Bus → List Round → Option (Worker sq.Conn net.Node)
  unfolding open_node prepare init_worker run_loop
  run_worker cfg random now b rounds = elim (open_node cfg random b).0 [
    | none ↦ none
    | some node ↦
        let r = prepare sq net files calls cfg.name cfg.pnp_enabled cfg.pnp_db_path node in
        some (
          run_loop sq net r.token cfg.node_id (init_worker sq net r.node cfg.node_id r.db now)
            rounds)
  ]
