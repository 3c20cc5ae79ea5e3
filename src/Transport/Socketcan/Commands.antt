-- ===== src/Transport/Socketcan/Commands.antt =====
-- src/transport/can_socketcan.rs: the commands that the SocketCAN worker answers.
use cyphal_service.Common.{
  ℕ, ◌+◌, ◌*◌, ◌%◌, ◌^◌, Option, none, some, List, [], ◌∷◌, ◌++◌, ltb, if◌then◌else◌, is_some, text,
  ok, err,
}
use cyphal_service.Common.Decimal.{decimal}
use cyphal_service.Pnp.Sqlite.{Sqlite}
use cyphal_service.Pnp.Allocator
use cyphal_service.Pnp.Allocator.{AllocationDataV1, AllocationDataV2, PnpAllocator}
use cyphal_service.Transport.State
use cyphal_service.Transport.State.{
  WorkerState, Sent, nodes, info, diagnostics, allocations, TransportCommand, list_nodes, get_info,
  diagnostics_of, list_allocations, GetInfoResult, PendingGetInfo, PnpGetInfoPending, increment_u64,
}
use cyphal_service.Transport.Worker.{Cyphal, Worker, send}

module _ (sq : Sqlite) (net : Cyphal) where
  -- A command's GetInfo, once its node ID is known to be valid.
  unfoldable pub issue_get_info :
      Option net.Token → Worker sq.Conn net.Node → ℕ → ℕ → ℕ → Worker sq.Conn net.Node
  issue_get_info none w now node_id reply =
      send
        (record w { state = State.record_error w.state (text "GetInfo requester not available") })
        (info reply (err (text "GetInfo requester not available")))
  issue_get_info (some token) w now node_id reply =
      let r = net.send_request w.node token (node_id % 256) in
      elim r.0 [
        | ok _ ↦
            let s = State.on_get_info_request_sent w.state in
            record w {
              node = r.1;
              state = record s {
                pending_get_info =
                    some (record { node_id = node_id; reply = reply; deadline = now + 3 * 10 ^ 9 });
              };
            }
        | err e ↦
            send
              (record w {
                node = r.1;
                state = State.record_error w.state (text "GetInfo request send failed: " ++ e);
              })
              (info reply (err (text "Failed to send GetInfo request: " ++ e)))
      ]

  unfoldable pub handle_command :
      Option net.Token
      → ℕ
      → Worker sq.Conn net.Node
      → ℕ × TransportCommand
      → Worker sq.Conn net.Node
  handle_command token local_node_id w (now, list_nodes reply) =
      send w (nodes reply (State.node_list w.state))
  handle_command token local_node_id w (now, diagnostics_of reply) =
      let diag = State.diagnostics_at w.state (some local_node_id) now in
      send w (diagnostics reply (record diag { pnp_enabled = is_some w.pnp }))
  handle_command token local_node_id w (now, get_info node_id reply) =
      if ltb 127 node_id
      then send w (
          info reply
            (err (text "CAN node ID " ++ decimal node_id ++ text " is out of range (0–127)")))
      else (if net.is_node_id (node_id % 256)
          then issue_get_info token w now node_id reply
          else send w (info reply (err (text "Invalid node ID"))))
  handle_command token local_node_id w (now, list_allocations reply) =
      send w
        (allocations reply (elim w.pnp [ none ↦ [] | some a ↦ Allocator.list_allocations sq a ]))

  unfoldable pub handle_commands :
      Option net.Token
      → ℕ
      → Worker sq.Conn net.Node
      → List (ℕ × TransportCommand)
      → Worker sq.Conn net.Node
  unfolding handle_command
  handle_commands token local_node_id w [] = w
  handle_commands token local_node_id w (c ∷ cs) =
      handle_commands token local_node_id (handle_command token local_node_id w c) cs
