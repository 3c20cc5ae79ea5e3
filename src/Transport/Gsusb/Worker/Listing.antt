-- ===== src/Transport/Gsusb/Worker/Listing.antt =====
-- src/transport/can_gsusb.rs: what the gs_usb worker's steps make of the nodes that it lists.
use cyphal_service.Common.{
  ℕ, ◌-◌, ◌^◌, ◌≡◌, refl, sym, ◌∙◌, subst, Option, none, some, List, [], ◌∷◌, leb, arith,
  Bool-cases, inl, inr,
}
use cyphal_service.Common.Map.{Map}
use cyphal_service.Pnp.Sqlite.{Sqlite}
use cyphal_service.Transport.State
use cyphal_service.Transport.State.{
  NodeEntry, TransportCommand, list_nodes, get_info, diagnostics_of, list_allocations,
}
use cyphal_service.Transport.Worker.{
  Cyphal, Worker, Round, Message, Response, Readings, Transfer, message, request, response,
}
use cyphal_service.Transport.Listing.{heard, IsKept, heard-kept}
use cyphal_service.Transport.Gsusb.Worker.Commands.{issue_get_info, handle_command, handle_commands}
use cyphal_service.Transport.Gsusb.Worker.Requests.{
  send_pnp_request, dispatch_get_info, check_command_timeout, report_pnp_timeout,
}
use cyphal_service.Transport.Gsusb.Worker.Transfers.{
  handle_allocation_v1, handle_allocation_v2, handle_message, answer_command, answer_pnp,
  handle_response, handle_transfer, handle_transfers,
}
use cyphal_service.Transport.Gsusb.Worker.Loop.{receive, per_second, poll, run_loop}

-- The nodes that a worker lists.
abbrev nodes_of : {Conn Node : Type 0} → Worker Conn Node → Map NodeEntry
nodes_of w = w.state.observed_nodes

module _ (sq : Sqlite) (net : Cyphal) where
  handle_message-nodes :
      (w : Worker sq.Conn net.Node) (m : Message) (t : Readings)
      → nodes_of (handle_message sq net w m t).1 ≡ heard net m (nodes_of w)
  unfolding handle_message handle_allocation_v1 handle_allocation_v2 State.on_heartbeat
      State.on_pnp_allocated
  handle_message-nodes w m t = ground arith

  handle_response-nodes :
      (w : Worker sq.Conn net.Node) (m : Response) (now : ℕ)
      → nodes_of (handle_response sq net w m now).1 ≡ nodes_of w
  unfolding handle_response answer_command answer_pnp State.on_message_received
      State.on_get_info_response
  handle_response-nodes w m now = ground arith

  handle_command-nodes :
      (token : Option net.Token) (local_node_id : ℕ) (w : Worker sq.Conn net.Node) (now : ℕ)
      (c : TransportCommand)
      → nodes_of (handle_command sq net token local_node_id w (now, c)) ≡ nodes_of w
  unfolding handle_command issue_get_info State.on_get_info_request_sent State.record_error
  handle_command-nodes token local_node_id w now (list_nodes r) = refl
  handle_command-nodes none local_node_id w now (get_info i r) = ground arith
  handle_command-nodes (some token) local_node_id w now (get_info i r) = ground arith
  handle_command-nodes token local_node_id w now (diagnostics_of r) = refl
  handle_command-nodes token local_node_id w now (list_allocations r) = refl

  handle_commands-nodes :
      (token : Option net.Token) (local_node_id : ℕ) (w : Worker sq.Conn net.Node)
      (cs : List (ℕ × TransportCommand))
      → nodes_of (handle_commands sq net token local_node_id w cs) ≡ nodes_of w
  unfolding handle_commands
  handle_commands-nodes token local_node_id w [] = refl
  handle_commands-nodes token local_node_id w ((now, c) ∷ cs) =
      handle_commands-nodes token local_node_id
        (handle_command sq net token local_node_id w (now, c)) cs
      ∙ handle_command-nodes token local_node_id w now c

  check_command_timeout-nodes :
      (w : Worker sq.Conn net.Node) (now : ℕ)
      → nodes_of (check_command_timeout sq net w now) ≡ nodes_of w
  unfolding check_command_timeout State.check_get_info_timeout
  check_command_timeout-nodes w now = ground arith

  dispatch_get_info-nodes :
      (token : Option net.Token) (w : Worker sq.Conn net.Node) (now : ℕ)
      → nodes_of (dispatch_get_info sq net token w now) ≡ nodes_of w
  unfolding dispatch_get_info send_pnp_request State.on_get_info_request_sent
  dispatch_get_info-nodes token w now = ground arith

  report_pnp_timeout-nodes :
      (w : Worker sq.Conn net.Node) (now : ℕ)
      → nodes_of (report_pnp_timeout sq net w now) ≡ nodes_of w
  unfolding report_pnp_timeout State.check_pnp_get_info_timeout
  report_pnp_timeout-nodes w now = ground arith

  module _ {local_node_id : ℕ} {I : Map NodeEntry → Type 0} (k : IsKept local_node_id I) where
    handle_transfers-kept :
        (w : Worker sq.Conn net.Node) (ts : List Transfer)
        → I (nodes_of w)
        → I (nodes_of (handle_transfers sq net w ts))
    unfolding handle_transfers handle_transfer
    handle_transfers-kept w [] h = h
    handle_transfers-kept w (message m t ∷ ts) h =
        handle_transfers-kept (handle_message sq net w m t).1 ts
          (subst I (sym (handle_message-nodes w m t)) (heard-kept k net m (nodes_of w) h))
    handle_transfers-kept w (request ∷ ts) h = handle_transfers-kept w ts h
    handle_transfers-kept w (response m now ∷ ts) h =
        handle_transfers-kept (handle_response sq net w m now).1 ts
          (subst I (sym (handle_response-nodes w m now)) h)

    receive-kept : (w : Worker sq.Conn net.Node) → I (nodes_of w) → I (nodes_of (receive sq net w))
    unfolding receive State.record_error
    receive-kept w h =
        let r = net.receive w.node in
        let w' = handle_transfers sq net (record w { node = r.node }) r.transfers in
        let same : nodes_of (receive sq net w) ≡ nodes_of w' = ground arith in
        subst I (sym same) (handle_transfers-kept (record w { node = r.node }) r.transfers h)

    per_second-kept :
        (w : Worker sq.Conn net.Node) (elapsed_at now : ℕ)
        → I (nodes_of w)
        → I (nodes_of (per_second sq net local_node_id w elapsed_at now))
    unfolding per_second
    per_second-kept w elapsed_at now h =
        elim (Bool-cases (leb (10 ^ 9) (elapsed_at - w.last_second))) [
          | inl due ↦ rw (due, per_second) (k.by_tick w.state h)
          | inr early ↦ rw (early, per_second) h
        ]

    poll-kept :
        (token : Option net.Token) (w : Worker sq.Conn net.Node) (r : Round)
        → I (nodes_of w)
        → I (nodes_of (poll sq net token local_node_id w r))
    unfolding poll
    poll-kept token w r h =
        let w1 = handle_commands sq net token local_node_id w r.commands in
        let w2 = check_command_timeout sq net w1 r.timeout_at in
        let w3 = dispatch_get_info sq net token w2 r.dispatch_at in
        let w4 = report_pnp_timeout sq net w3 r.pnp_timeout_at in
        let same : nodes_of w4 ≡ nodes_of w =
          report_pnp_timeout-nodes w3 r.pnp_timeout_at
          ∙ dispatch_get_info-nodes token w2 r.dispatch_at
          ∙ check_command_timeout-nodes w1 r.timeout_at
          ∙ handle_commands-nodes token local_node_id w r.commands in
        per_second-kept (receive sq net w4) r.second_elapsed_at r.second_at
          (receive-kept w4 (subst I (sym same) h))

    pub run_loop-kept :
        (token : Option net.Token) (w : Worker sq.Conn net.Node) (rounds : List Round)
        → I (nodes_of w)
        → I (nodes_of (run_loop sq net token local_node_id w rounds))
    unfolding run_loop
    run_loop-kept token w [] h = h
    run_loop-kept token w (r ∷ rounds) h = elim (Bool-cases r.shutdown) [
      | inl stop ↦ rw (stop, run_loop) h
      | inr go ↦
          rw (go, run_loop)
            (run_loop-kept token (poll sq net token local_node_id w r) rounds
              (poll-kept token w r h))
    ]
