-- ===== src/Transport/Serial/Start.antt =====
-- src/transport/serial.rs: `run_worker`, from its configuration on.
use cyphal_service.Config.{SerialConfig}
use cyphal_service.Transport.Serial.Loop.{init_worker, run_loop}
use cyphal_service.Common.{ℕ, Option, none, some, List, Text}
use cyphal_service.Pnp.Sqlite.{Sqlite}
use cyphal_service.Pnp.Open.{Files}
use cyphal_service.Transport.Worker.{Cyphal, Worker, Round}
use cyphal_service.Transport.Startup.{
  ◌>>=◌, checked, NodeInfo, make_node_info, Registration, prepare,
}

-- The port, and the node of canadensis_serial. Errors are only logged.
pub record SerialOutside (net : Cyphal) : Type 1 where
  pub Port : Type 0
  -- A path, a baud rate and a timeout in milliseconds.
  pub open_port : Text → ℕ → ℕ → Option Port
  pub new_node : ℕ → Port → NodeInfo → Option net.Node

module _ (sq : Sqlite) (net : Cyphal) (files : Files sq.Conn) (calls : Registration net)
    (out : SerialOutside net) where
  -- The node, unless `run_worker` returns before it is there.
  unfoldable pub open_node : SerialConfig → List ℕ → Option net.Node
  unfolding make_node_info
  open_node cfg random = do
    port ← out.open_port cfg.port cfg.baud_rate 1
    node_id ← checked net.is_node_id cfg.node_id
    out.new_node node_id port (make_node_info cfg.name random)

  -- `now` is the reading of the clock before the loop. None: the worker never got to its loop.
  unfoldable pub run_worker :
      SerialConfig → List ℕ → ℕ → List Round → Option (Worker sq.Conn net.Node)
  unfolding open_node prepare init_worker run_loop
  run_worker cfg random now rounds = elim (open_node cfg random) [
    | none ↦ none
    | some node ↦
        let r = prepare sq net files calls cfg.name cfg.pnp_enabled cfg.pnp_db_path node in
        some (
          run_loop sq net r.token cfg.node_id (init_worker sq net r.node cfg.node_id r.db now)
            rounds)
  ]
