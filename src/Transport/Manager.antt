-- ===== src/Transport/Manager.antt =====
-- src/transport/mod.rs: the transports that are started, and the handle that each `start` returns.
-- Whether the program was built for Linux is an argument.
use mathlib.Core.List.{append-nil, append_assoc}
use cyphal_service.Common.{
  ℕ, ◌≡◌, refl, sym, ◌⊎◌, inl, inr, Bool-cases, ◌∙◌, Bool, true, some, List, [], ◌∷◌, ◌++◌, map,
  if◌then◌else◌, Text,
}
use cyphal_service.Config.{
  AppConfig, TransportConfig, can, udp, serial, CanConfig, UdpConfig, SerialConfig, CanDriver,
  socketcan, gsusb,
}
use cyphal_service.Transport.Handle.{TransportHandle}

-- `can_gsusb::start` and `can_socketcan::start`.
abbrev pub start_can : CanConfig → TransportHandle
start_can cfg = record { name = cfg.name; local_node_id = some cfg.node_id }

-- `udp::start`.
abbrev pub start_udp : UdpConfig → TransportHandle
start_udp cfg = record { name = cfg.name; local_node_id = some cfg.node_id }

-- `serial::start`.
abbrev pub start_serial : SerialConfig → TransportHandle
start_serial cfg = record { name = cfg.name; local_node_id = some cfg.node_id }

-- The loop over the configuration's transports, with the handles so far.
unfoldable pub start_each :
    Bool → List TransportHandle → List TransportConfig → List TransportHandle
start_each linux handles [] = handles
start_each linux handles (can cfg ∷ rest) = elim cfg.driver [
  | gsusb ↦ start_each linux (handles ++ start_can cfg ∷ []) rest
  | socketcan ↦ start_each linux (if linux then handles ++ start_can cfg ∷ [] else handles) rest
]
start_each linux handles (udp cfg ∷ rest) = start_each linux (handles ++ start_udp cfg ∷ []) rest
start_each linux handles (serial cfg ∷ rest) =
    start_each linux (handles ++ start_serial cfg ∷ []) rest

unfoldable pub start_all : Bool → AppConfig → List TransportHandle
unfolding start_each
start_all linux config = start_each linux [] config.transports

-- The name and node ID that a transport is configured with.
abbrev pub configured : TransportConfig → Text × ℕ
configured (can cfg) = (cfg.name, cfg.node_id)
configured (udp cfg) = (cfg.name, cfg.node_id)
configured (serial cfg) = (cfg.name, cfg.node_id)

abbrev pub is_supported : Bool → TransportConfig → Bool
is_supported linux (can cfg) = elim cfg.driver [ gsusb ↦ true | socketcan ↦ linux ]
is_supported linux (udp cfg) = true
is_supported linux (serial cfg) = true

abbrev pub supported : Bool → List TransportConfig → List TransportConfig
supported linux [] = []
supported linux (c ∷ cs) =
    let rest = supported linux cs in if is_supported linux c then c ∷ rest else rest

abbrev pub handle_of : TransportConfig → TransportHandle
handle_of c = record { name = (configured c).0; local_node_id = some (configured c).1 }

CanDriver-cases : (d : CanDriver) → (d ≡ gsusb) ⊎ (d ≡ socketcan)
CanDriver-cases gsusb = inl refl
CanDriver-cases socketcan = inr refl

start_each-supported :
    (linux : Bool) (handles : List TransportHandle) (cs : List TransportConfig)
    → start_each linux handles cs ≡ handles ++ map handle_of (supported linux cs)
unfolding start_each
start_each-supported linux handles [] = sym (append-nil handles)
start_each-supported linux handles (can cfg ∷ cs) = elim (CanDriver-cases cfg.driver) [
  | inl e ↦ rw e (
      start_each-supported linux (handles ++ start_can cfg ∷ []) cs
      ∙ append_assoc handles (start_can cfg ∷ []) (map handle_of (supported linux cs)))
  | inr e ↦ elim (Bool-cases linux) [
    | inl here ↦
        rw (e, here)
          (start_each-supported linux (handles ++ start_can cfg ∷ []) cs
            ∙ append_assoc handles (start_can cfg ∷ []) (map handle_of (supported linux cs)))
    | inr other ↦ rw (e, other) (start_each-supported linux handles cs)
  ]
]
start_each-supported linux handles (udp cfg ∷ cs) =
    start_each-supported linux (handles ++ start_udp cfg ∷ []) cs
    ∙ append_assoc handles (start_udp cfg ∷ []) (map handle_of (supported linux cs))
start_each-supported linux handles (serial cfg ∷ cs) =
    start_each-supported linux (handles ++ start_serial cfg ∷ []) cs
    ∙ append_assoc handles (start_serial cfg ∷ []) (map handle_of (supported linux cs))

-- The handles are those of the configured transports that the platform supports, which are all of
-- them but SocketCAN outside Linux, in their order, each with its transport's name and node ID.
pub start_all-supported :
    (linux : Bool) (config : AppConfig)
    → start_all linux config ≡ map handle_of (supported linux config.transports)
unfolding start_all
start_all-supported linux config = start_each-supported linux [] config.transports
