-- ===== src/Transport/Socketcan/Start.antt =====
-- src/transport/can_socketcan.rs: `run_worker`, from its configuration on.
use cyphal_service.Config.{CanConfig}
use cyphal_service.Transport.Socketcan.Loop.{init_worker, run_loop}
use cyphal_service.Common.{ℕ, Option, none, some, List, Text}
use cyphal_service.Pnp.Sqlite.{Sqlite}
use cyphal_service.Pnp.Open.{Files}
use cyphal_service.Transport.Worker.{Cyphal, Worker, Round}
use cyphal_service.Transport.Startup.{
  ◌>>=◌, checked, NodeInfo, make_node_info, Registration, prepare,
}

-- The socket, with its timeouts in milliseconds, and the node of canadensis_can. Errors are only
-- logged.
pub record SocketcanOutside (net : Cyphal) : Type 1 where
  pub Socket : Type 0
  pub open_socket : Text → Option Socket
  pub set_read_timeout : ℕ → Socket → Socket
  pub set_write_timeout : ℕ → Socket → Socket
  pub new_node : ℕ → Socket → NodeInfo → Option net.Node

module _ (sq : Sqlite) (net : Cyphal) (files : Files sq.Conn) (calls : Registration net)
    (out : SocketcanOutside net) where
  -- The node, unless `run_worker` returns before it is there.
  unfoldable pub open_node : CanConfig → List ℕ → Option net.Node
  unfolding make_node_info
  open_node cfg random = do
    iface ← cfg.interface
    socket ← out.open_socket iface
    node_id ← checked net.is_node_id cfg.node_id
    out.new_node node_id (out.set_write_timeout 100 (out.set_read_timeout 1 socket))
        (make_node_info cfg.name random)

  -- `now` is the reading of the clock before the loop. None: the worker never got to its loop.
  unfoldable pub run_worker : CanConfig → List ℕ → ℕ → List Round → Option (Worker sq.Conn net.Node)
  unfolding open_node prepare init_worker run_loop
  run_worker cfg random now rounds = elim (open_node cfg random) [
    | none ↦ none
    | some node ↦
        let r = prepare sq net files calls cfg.name cfg.pnp_enabled cfg.pnp_db_path node in
        some (
          run_loop sq net r.token cfg.node_id (init_worker sq net r.node cfg.node_id r.db now)
            rounds)
  ]
