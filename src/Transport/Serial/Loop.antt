-- ===== src/Transport/Serial/Loop.antt =====
-- src/transport/serial.rs: the loop of the Cyphal/Serial worker.
use cyphal_service.Common.{
  ℕ, ◌-◌, ◌^◌, Bool, true, false, Option, none, some, List, [], ◌∷◌, ◌++◌, leb, if◌then◌else◌, text,
  ok, err,
}
use cyphal_service.Pnp.Sqlite.{Sqlite}
use cyphal_service.Pnp.Allocator
use cyphal_service.Pnp.Allocator.{AllocationDataV1, AllocationDataV2, PnpAllocator}
use cyphal_service.Transport.State
use cyphal_service.Transport.State.{
  WorkerState, Sent, nodes, info, diagnostics, allocations, TransportCommand, list_nodes, get_info,
  diagnostics_of, list_allocations, GetInfoResult, PendingGetInfo, PnpGetInfoPending, increment_u64,
}
use cyphal_service.Transport.Worker.{
  Cyphal, Worker, ErrorKind, usb_timeout, usb_no_device, would_block, timed_out, other_error, Round,
}
use cyphal_service.Transport.Serial.Commands.{handle_commands}
use cyphal_service.Transport.Serial.Requests.{
  check_command_timeout, dispatch_get_info, report_pnp_timeout,
}
use cyphal_service.Transport.Serial.Transfers.{handle_transfers}

-- Errors of `receive` that are no error: nothing was waiting.
unfoldable pub is_ignored : ErrorKind → Bool
is_ignored usb_timeout = false
is_ignored usb_no_device = false
is_ignored would_block = true
is_ignored timed_out = true
is_ignored other_error = false

module _ (sq : Sqlite) (net : Cyphal) where
  -- The loop's variables before its first round. `db` is the allocation database, if plug-and-play
  -- is enabled and the database could be opened.
  unfoldable pub init_worker : net.Node → ℕ → Option sq.Conn → ℕ → Worker sq.Conn net.Node
  init_worker node node_id db now = record {
    state = State.register_local_node State.default node_id;
    pnp = elim db [ none ↦ none | some c ↦ some (Allocator.new sq c node_id 65534) ];
    node = node;
    last_second = now;
    sent = [];
  }

  -- Poll for incoming transfers.
  unfoldable pub receive : Worker sq.Conn net.Node → Worker sq.Conn net.Node
  unfolding handle_transfers
  receive w =
      let r = net.receive w.node in
      let w' = handle_transfers sq net (record w { node = r.node }) r.transfers in
      elim r.outcome [
        | ok _ ↦ w'
        | err e ↦ if is_ignored e.kind then w' else record w' {
          state = State.record_error w'.state (text "Receive error: " ++ e.shown);
        }
      ]

  unfoldable pub per_second : ℕ → Worker sq.Conn net.Node → ℕ → ℕ → Worker sq.Conn net.Node
  per_second local_node_id w elapsed_at now =
      if leb (10 ^ 9) (elapsed_at - w.last_second)
      then record w {
        last_second = now;
        state = State.tick_local_node w.state local_node_id;
        node = net.flush (net.run_per_second_tasks w.node);
      }
      else w

  -- One round of the loop.
  unfoldable pub poll :
      Option net.Token → ℕ → Worker sq.Conn net.Node → Round → Worker sq.Conn net.Node
  unfolding handle_commands check_command_timeout dispatch_get_info report_pnp_timeout receive
      per_second
  poll token local_node_id w round =
      let w1 = handle_commands sq net token local_node_id w round.commands in
      let w2 = check_command_timeout sq net w1 round.timeout_at in
      let w3 = dispatch_get_info sq net token w2 round.dispatch_at in
      let w4 = report_pnp_timeout sq net w3 round.pnp_timeout_at in
      per_second local_node_id (receive w4) round.second_elapsed_at round.second_at

  -- The loop, until a round finds the shutdown signal.
  unfoldable pub run_loop :
      Option net.Token → ℕ → Worker sq.Conn net.Node → List Round → Worker sq.Conn net.Node
  unfolding poll
  run_loop token local_node_id w [] = w
  run_loop token local_node_id w (round ∷ rounds) = elim round.shutdown [
    | true ↦ w
    | false ↦ run_loop token local_node_id (poll token local_node_id w round) rounds
  ]
