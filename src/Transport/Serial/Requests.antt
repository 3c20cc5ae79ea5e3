-- ===== src/Transport/Serial/Requests.antt =====
-- src/transport/serial.rs: the GetInfo requests that the Cyphal/Serial worker makes for the allocator, and
-- the timeouts of its requests.
use cyphal_service.Common.{ℕ, ◌+◌, ◌*◌, ◌^◌, Option, none, some, ◌++◌, if◌then◌else◌, ok, err}
use cyphal_service.Pnp.Sqlite.{Sqlite}
use cyphal_service.Pnp.Allocator
use cyphal_service.Pnp.Allocator.{AllocationDataV1, AllocationDataV2, PnpAllocator}
use cyphal_service.Transport.State
use cyphal_service.Transport.State.{
  WorkerState, Sent, nodes, info, diagnostics, allocations, TransportCommand, list_nodes, get_info,
  diagnostics_of, list_allocations, GetInfoResult, PendingGetInfo, PnpGetInfoPending, increment_u64,
}
use cyphal_service.Transport.Worker.{Cyphal, Worker}

module _ (sq : Sqlite) (net : Cyphal) where
  -- The request for `node_id` was not sent.
  abbrev pub give_up : Worker sq.Conn net.Node → PnpAllocator sq.Conn → ℕ → Worker sq.Conn net.Node
  give_up w a node_id = record w { pnp = some (Allocator.on_get_info_result sq a node_id none) }

  unfoldable pub send_pnp_request :
      net.Token → Worker sq.Conn net.Node → PnpAllocator sq.Conn → ℕ → ℕ → Worker sq.Conn net.Node
  send_pnp_request token w a now node_id =
      let r = net.send_request w.node token node_id in
      elim r.0 [
        | ok _ ↦
            let s = State.on_get_info_request_sent w.state in
            record w {
              node = r.1;
              pnp = some a;
              state = record s {
                pnp_pending_get_info =
                    some (record { node_id = node_id; deadline = now + 5 * 10 ^ 9 });
              };
            }
        | err e ↦ give_up (record w { node = r.1 }) a node_id
      ]

  -- Dispatch the next PNP-triggered GetInfo if none is in flight.
  unfoldable pub dispatch_get_info :
      Option net.Token → Worker sq.Conn net.Node → ℕ → Worker sq.Conn net.Node
  unfolding send_pnp_request
  dispatch_get_info token w now = elim w.state.pnp_pending_get_info [
    | some _ ↦ w
    | none ↦ elim w.pnp [
      | none ↦ w
      | some a ↦
          let popped = Allocator.pop_get_info_request sq a in
          let a' = popped.1 in
          elim popped.0 [
            | none ↦ record w { pnp = some a' }
            | some node_id ↦
                if net.is_node_id node_id
                then elim token [
                  | none ↦ give_up w a' node_id
                  | some t ↦ send_pnp_request t w a' now node_id
                ]
                else give_up w a' node_id
          ]
    ]
  ]

  -- Time out the command's request.
  unfoldable pub check_command_timeout : Worker sq.Conn net.Node → ℕ → Worker sq.Conn net.Node
  check_command_timeout w now =
      let r = State.check_get_info_timeout w.state now in
      record w { state = r.0; sent = w.sent ++ r.1 }

  -- Report PNP GetInfo timeouts back to the allocator.
  unfoldable pub report_pnp_timeout : Worker sq.Conn net.Node → ℕ → Worker sq.Conn net.Node
  report_pnp_timeout w now =
      let r = State.check_pnp_get_info_timeout w.state now in
      let w' = record w { state = r.1 } in
      elim r.0 [
        | none ↦ w'
        | some node_id ↦ elim w.pnp [
          | none ↦ w'
          | some a ↦ record w' { pnp = some (Allocator.on_get_info_result sq a node_id none) }
        ]
      ]
