-- ===== src/Transport/Udp/Start.antt =====
-- src/transport/udp.rs: `run_worker`, from its configuration on.
use cyphal_service.Common.{
  ℕ, ◌+◌, ◌-◌, ◌*◌, Bool, ◌&&◌, Option, none, some, List, [], ◌∷◌, ◌++◌, leb, ltb, ◌==◌,
  if◌then◌else◌, Text,
}
use mathlib.Core.Option
use cyphal_service.Config.{UdpConfig}
use cyphal_service.Pnp.Sqlite.{Sqlite}
use cyphal_service.Pnp.Open.{Files}
use cyphal_service.Transport.Worker.{Cyphal, Worker, Round}
use cyphal_service.Transport.Startup.{
  ◌>>=◌, checked, NodeInfo, make_node_info, Registration, prepare,
}
use cyphal_service.Transport.Udp.Loop.{init_worker, run_loop}

abbrev pub is_digit : ℕ → Bool
is_digit c = leb b'0' c && leb c b'9'

-- The texts between dots.
unfoldable pub split_dots : Text → Text → List Text
split_dots part [] = part ∷ []
split_dots part (c ∷ cs) =
    let ended = split_dots [] cs in
    let longer = split_dots (part ++ c ∷ []) cs in if c == b'.' then part ∷ ended else longer

-- One to three digits with no zero before others, and a value below 256.
abbrev pub octet : Text → Option ℕ
octet (a ∷ []) = if is_digit a then some (a - b'0') else none
octet (a ∷ b ∷ []) =
    if is_digit a && is_digit b && ltb b'0' a then some ((a - b'0') * 10 + (b - b'0')) else none
octet (a ∷ b ∷ c ∷ []) =
    let n = (a - b'0') * 100 + (b - b'0') * 10 + (c - b'0') in
    if is_digit a && is_digit b && is_digit c && ltb b'0' a && ltb n 256 then some n else none
octet other = none

abbrev pub octets : List Text → Option (List ℕ)
octets (a ∷ b ∷ c ∷ d ∷ []) = do
  i ← octet a
  j ← octet b
  k ← octet c
  l ← octet d
  some (i ∷ j ∷ k ∷ l ∷ [])
octets other = none

-- `Ipv4Addr::from_str`.
unfoldable pub parse_ipv4 : Text → Option (List ℕ)
unfolding split_dots
parse_ipv4 s = octets (split_dots [] s)

-- The socket and the node of canadensis_udp. Errors are only logged.
pub record UdpOutside (net : Cyphal) : Type 1 where
  pub Socket : Type 0
  pub default_port : ℕ
  pub bind : ℕ → Option Socket
  -- A port, the interface's address, a node ID, a socket and the node's description.
  pub new_node : ℕ → List ℕ → ℕ → Socket → NodeInfo → Option net.Node

module _ (sq : Sqlite) (net : Cyphal) (files : Files sq.Conn) (calls : Registration net)
    (out : UdpOutside net) where
  -- The node, unless `run_worker` returns before it is there.
  unfoldable pub open_node : UdpConfig → List ℕ → Option net.Node
  unfolding parse_ipv4 make_node_info
  open_node cfg random =
      let port = Option.get_or cfg.port out.default_port in
      do
        iface ← parse_ipv4 cfg.interface
        node_id ← checked net.is_node_id cfg.node_id
        socket ← out.bind port
        out.new_node port iface node_id socket (make_node_info cfg.name random)

  -- `now` is the reading of the clock before the loop. None: the worker never got to its loop.
  unfoldable pub run_worker : UdpConfig → List ℕ → ℕ → List Round → Option (Worker sq.Conn net.Node)
  unfolding open_node prepare init_worker run_loop
  run_worker cfg random now rounds = elim (open_node cfg random) [
    | none ↦ none
    | some node ↦
        let r = prepare sq net files calls cfg.name cfg.pnp_enabled cfg.pnp_db_path node in
        some (
          run_loop sq net r.token cfg.node_id (init_worker sq net r.node cfg.node_id r.db now)
            rounds)
  ]
