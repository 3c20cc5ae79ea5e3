-- ===== src/Transport/Socketcan/Replies.antt =====
-- src/transport/can_socketcan.rs: a command is answered once. The steps that are the same as the
-- Cyphal/UDP worker's keep its accounts.
use cyphal_service.Common.{
  ℕ, ◌+◌, ◌%◌, ltb, ◌≤◌, ◌≡◌, refl, ◌∙◌, Option, none, some, List, [], ◌∷◌, ◌++◌, arith, err, text,
  Result-cases, Bool-cases, inl, inr,
}
use cyphal_service.Pnp.Sqlite.{Sqlite}
use cyphal_service.Transport.State
use cyphal_service.Transport.State.{
  WorkerState, Sent, info, TransportCommand, list_nodes, get_info, diagnostics_of, list_allocations,
}
use cyphal_service.Transport.Worker.{Cyphal, Worker, Round, Transfer, message, request, response}
use cyphal_service.Transport.Replies.{
  ReplyChannel, owed, asks_on, asked, Asks, send-Asks, asked_in, count_sent-append,
}
use cyphal_service.Transport.Socketcan.Commands.{issue_get_info, handle_command, handle_commands}
use cyphal_service.Transport.Socketcan.Requests.{
  dispatch_get_info, check_command_timeout, report_pnp_timeout,
}
use cyphal_service.Transport.Socketcan.Transfers.{
  handle_message, handle_response, handle_transfer, handle_transfers,
}
use cyphal_service.Transport.Socketcan.Loop.{receive, per_second, poll, run_loop}
use cyphal_service.Transport.Udp.Transfers as UdpTransfers
use cyphal_service.Transport.Udp.Requests as UdpRequests
use cyphal_service.Transport.Udp.Loop as UdpLoop
use cyphal_service.Transport.Udp.Replies.{
  handle_message-owed, handle_response-owed, per_second-owed, check_command_timeout-owed,
  report_pnp_timeout-owed,
}

module _ (sq : Sqlite) (net : Cyphal) where
  handle_transfers-owed :
      (w : Worker sq.Conn net.Node) (ts : List Transfer) (ch : ReplyChannel)
      → owed (handle_transfers sq net w ts) ch ≡ owed w ch
  unfolding handle_transfers handle_transfer handle_message handle_response
      UdpTransfers.handle_message UdpTransfers.handle_response
  handle_transfers-owed w [] ch = refl
  handle_transfers-owed w (message m t ∷ ts) ch =
      handle_transfers-owed (handle_message sq net w m t).1 ts ch
      ∙ handle_message-owed sq net w m t ch
  handle_transfers-owed w (request ∷ ts) ch = handle_transfers-owed w ts ch
  handle_transfers-owed w (response m now ∷ ts) ch =
      handle_transfers-owed (handle_response sq net w m now).1 ts ch
      ∙ handle_response-owed sq net w m now ch

  receive-owed :
      (w : Worker sq.Conn net.Node) (ch : ReplyChannel) → owed (receive sq net w) ch ≡ owed w ch
  unfolding receive State.record_error
  receive-owed w ch =
      let r = net.receive w.node in
      ground (arith, handle_transfers-owed (record w { node = r.node }) r.transfers ch)

  dispatch_get_info-owed :
      (token : Option net.Token) (w : Worker sq.Conn net.Node) (now : ℕ) (ch : ReplyChannel)
      → owed (dispatch_get_info sq net token w now) ch ≡ owed w ch
  unfolding dispatch_get_info State.on_get_info_request_sent
  dispatch_get_info-owed token w now ch = ground arith

  issue_get_info-Asks :
      (token : Option net.Token) (w : Worker sq.Conn net.Node) (now node_id reply : ℕ)
      → Asks w (get_info node_id reply) (issue_get_info sq net token w now node_id reply)
  unfolding issue_get_info State.on_get_info_request_sent State.record_error
  issue_get_info-Asks none w now node_id reply ch = ground (
    arith,
    count_sent-append ch w.sent (info reply (err (text "GetInfo requester not available")) ∷ []),
  )
  issue_get_info-Asks (some token) w now node_id reply ch =
      elim (Result-cases (net.send_request w.node token (node_id % 256)).0) [
        | inl (u, e) ↦ ground arith
        | inr (x, e) ↦ ground (
          arith,
          count_sent-append ch w.sent
              (info reply (err (text "Failed to send GetInfo request: " ++ x)) ∷ []),
        )
      ]

  handle_command-Asks :
      (token : Option net.Token) (local_node_id : ℕ) (w : Worker sq.Conn net.Node) (now : ℕ)
      (c : TransportCommand)
      → Asks w c (handle_command sq net token local_node_id w (now, c))
  unfolding handle_command
  handle_command-Asks token local_node_id w now (list_nodes reply) =
      send-Asks w _ (list_nodes reply) (λ ch. refl)
  handle_command-Asks token local_node_id w now (diagnostics_of reply) =
      send-Asks w _ (diagnostics_of reply) (λ ch. refl)
  handle_command-Asks token local_node_id w now (get_info node_id reply) =
      elim (Bool-cases (ltb 127 node_id)) [
        | inl far ↦ rw (far, handle_command) (send-Asks w _ (get_info node_id reply) (λ ch. refl))
        | inr near ↦ elim (Bool-cases (net.is_node_id (node_id % 256))) [
          | inl valid ↦
              rw (near, valid, handle_command) (issue_get_info-Asks token w now node_id reply)
          | inr invalid ↦
              rw (near, invalid, handle_command)
                (send-Asks w _ (get_info node_id reply) (λ ch. refl))
        ]
      ]
  handle_command-Asks token local_node_id w now (list_allocations reply) =
      send-Asks w _ (list_allocations reply) (λ ch. refl)

  handle_commands-owed :
      (token : Option net.Token) (local_node_id : ℕ) (w : Worker sq.Conn net.Node)
      (cs : List (ℕ × TransportCommand)) (ch : ReplyChannel)
      → owed (handle_commands sq net token local_node_id w cs) ch ≤ owed w ch + asked ch cs
  unfolding handle_commands
  handle_commands-owed token local_node_id w [] ch = omega arith
  handle_commands-owed token local_node_id w ((now, c) ∷ cs) ch = omega (
    arith,
    (handle_command-Asks token local_node_id w now c ch).0,
    handle_commands-owed token local_node_id (handle_command sq net token local_node_id w (now, c))
        cs ch,
  )

  -- What the rest of a round does to the account: nothing.
  poll-owed :
      (token : Option net.Token) (local_node_id : ℕ) (w : Worker sq.Conn net.Node) (r : Round)
      (ch : ReplyChannel)
      → owed (poll sq net token local_node_id w r) ch
        ≡ owed (handle_commands sq net token local_node_id w r.commands) ch
  unfolding poll per_second check_command_timeout report_pnp_timeout UdpLoop.per_second
      UdpRequests.check_command_timeout UdpRequests.report_pnp_timeout
  poll-owed token local_node_id w r ch =
      let w1 = handle_commands sq net token local_node_id w r.commands in
      let w2 = check_command_timeout sq net w1 r.timeout_at in
      let w3 = dispatch_get_info sq net token w2 r.dispatch_at in
      let w4 = report_pnp_timeout sq net w3 r.pnp_timeout_at in
      per_second-owed sq net local_node_id (receive sq net w4) r.second_elapsed_at r.second_at ch
      ∙ receive-owed w4 ch
      ∙ report_pnp_timeout-owed sq net w3 r.pnp_timeout_at ch
      ∙ dispatch_get_info-owed token w2 r.dispatch_at ch
      ∙ check_command_timeout-owed sq net w1 r.timeout_at ch

  -- In any run of the worker, a channel is sent at most as many answers as it was owed at the start
  -- and as commands came with it: no command is answered twice.
  pub run_loop-owed :
      (token : Option net.Token) (local_node_id : ℕ) (w : Worker sq.Conn net.Node)
      (rounds : List Round) (ch : ReplyChannel)
      → owed (run_loop sq net token local_node_id w rounds) ch ≤ owed w ch + asked_in ch rounds
  unfolding run_loop
  run_loop-owed token local_node_id w [] ch = omega arith
  run_loop-owed token local_node_id w (r ∷ rounds) ch = elim (Bool-cases r.shutdown) [
    | inl stop ↦ rw (stop, run_loop) (omega arith)
    | inr go ↦
        rw (go, run_loop)
          (omega (
            arith,
            run_loop-owed token local_node_id (poll sq net token local_node_id w r) rounds ch,
            poll-owed token local_node_id w r ch,
            handle_commands-owed token local_node_id w r.commands ch,
          ))
  ]

  -- A round with a single command, taken while no GetInfo request is pending, moves every
  -- channel's account by exactly the commands on it: the one command is answered or pending, and
  -- no answer is lost.
  pub poll-owed_exact :
      (token : Option net.Token) (local_node_id : ℕ) (w : Worker sq.Conn net.Node) (r : Round)
      (now : ℕ) (c : TransportCommand) (ch : ReplyChannel)
      → r.commands ≡ (now, c) ∷ []
      → w.state.pending_get_info ≡ none
      → owed (poll sq net token local_node_id w r) ch ≡ owed w ch + asks_on ch c
  unfolding handle_commands
  poll-owed_exact token local_node_id w r now c ch one idle =
      poll-owed token local_node_id w r ch
      ∙ rw one ((handle_command-Asks token local_node_id w now c ch).1 idle)
