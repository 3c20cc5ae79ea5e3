-- ===== src/Transport/Socketcan/Transfers.antt =====
-- src/transport/can_socketcan.rs: the transfer handler of the SocketCAN worker.
use cyphal_service.Common.{
  ℕ, ◌==◌, Bool, true, false, ◌&&◌, Option, none, some, List, [], ◌∷◌, ◌++◌, if◌then◌else◌,
  is_some_and, Text, text, Result, ok, err, not,
}
use cyphal_service.Pnp.Sqlite.{Sqlite}
use cyphal_service.Pnp.Allocator
use cyphal_service.Pnp.Allocator.{AllocationDataV1, AllocationDataV2, PnpAllocator}
use cyphal_service.Transport.State
use cyphal_service.Transport.State.{
  WorkerState, Sent, nodes, info, diagnostics, allocations, TransportCommand, list_nodes, get_info,
  diagnostics_of, list_allocations, GetInfoResult, PendingGetInfo, PnpGetInfoPending, increment_u64,
}
use cyphal_service.Transport.Worker.{
  Cyphal, Worker, Message, Response, Readings, Transfer, message, request, response,
  GetInfoResponse,
}

module _ (sq : Sqlite) (net : Cyphal) where
  unfoldable pub handle_allocation_v2 :
      Worker sq.Conn net.Node → PnpAllocator sq.Conn → Message → Worker sq.Conn net.Node
  handle_allocation_v2 w a m = elim (net.parse_v2 m.payload) [
    | none ↦ w
    | some msg ↦
        let r = Allocator.on_allocation_v2 sq a msg m.source in
        elim r.0 [
          | none ↦ record w { pnp = some r.1 }
          | some answer ↦ record w {
            pnp = some r.1;
            node = net.publish_v2 w.node answer;
            state = State.on_pnp_allocated w.state;
          }
        ]
  ]

  unfoldable pub handle_allocation_v1 :
      Worker sq.Conn net.Node → PnpAllocator sq.Conn → Message → Worker sq.Conn net.Node
  handle_allocation_v1 w a m = elim (net.parse_v1 m.payload) [
    | none ↦ w
    | some msg ↦
        let r = Allocator.on_allocation_v1 sq a msg m.source in
        elim r.0 [
          | none ↦ record w { pnp = some r.1 }
          | some answer ↦ record w {
            pnp = some r.1;
            node = net.publish_v1 w.node answer;
            state = State.on_pnp_allocated w.state;
          }
        ]
  ]

  -- The result says whether the message was handled. A heartbeat without a source counts as 0xFFFF's.
  unfoldable pub handle_message :
      Worker sq.Conn net.Node → Message → Readings → Bool × Worker sq.Conn net.Node
  unfolding handle_allocation_v1 handle_allocation_v2
  handle_message w m t =
      if m.subject == net.heartbeat_subject
      then elim (net.parse_heartbeat m.payload) [
        | none ↦ (false, w)
        | some hb ↦
            let node_id : ℕ = elim m.source [ none ↦ 0xFFFF | some i ↦ i ] in
            (
              true,
              record w {
                pnp = elim w.pnp [
                  | none ↦ none
                  | some a ↦ some (Allocator.on_heartbeat sq a node_id t.elapsed_at t.queried_at)
                ];
                state =
                    State.on_heartbeat w.state t.received_at node_id hb.uptime hb.health hb.mode;
              },
            )
      ]
      else elim w.pnp [
        | none ↦ (false, w)
        | some a ↦
            if m.subject == net.pnp_v2_subject
            then (true, handle_allocation_v2 w a m)
            else (if m.subject == net.pnp_v1_subject
                then (true, handle_allocation_v1 w a m)
                else (false, w))
      ]

  -- What a command's request is answered with.
  abbrev pub get_info_result : ℕ → Option GetInfoResponse → Result GetInfoResult Text
  get_info_result source none = err (text "Failed to parse GetInfo response")
  get_info_result source (some r) = ok (record {
    node_id = source;
    name = net.from_utf8_lossy r.name;
    hardware_version = r.hardware_version;
    software_version = r.software_version;
    unique_id = r.unique_id;
  })

  unfoldable pub answer_command :
      Worker sq.Conn net.Node → ℕ → Option GetInfoResponse → Worker sq.Conn net.Node
  answer_command w source parsed =
      let r = State.on_get_info_response w.state (get_info_result source parsed) in
      record w { state = r.0; sent = w.sent ++ r.1 }

  unfoldable pub answer_pnp :
      Worker sq.Conn net.Node → ℕ → Option GetInfoResponse → Worker sq.Conn net.Node
  answer_pnp w source parsed =
      let s = w.state in
      let uid : Option (List ℕ) = elim parsed [ none ↦ none | some r ↦ some r.unique_id ] in
      record w {
        state = record s {
          pnp_pending_get_info = none;
          get_info_responses_received = increment_u64 s.get_info_responses_received;
        };
        pnp = elim w.pnp [
          | none ↦ none
          | some a ↦ some (Allocator.on_get_info_result sq a source uid)
        ];
      }

  unfoldable pub handle_response :
      Worker sq.Conn net.Node → Response → ℕ → Bool × Worker sq.Conn net.Node
  unfolding answer_command answer_pnp
  handle_response w m now =
      let matches_cli = is_some_and w.state.pending_get_info (λ p. p.node_id == m.source) in
      let matches_pnp = is_some_and w.state.pnp_pending_get_info (λ p. p.node_id == m.source) in
      let parsed = net.parse_get_info m.payload in
      let w1 = if matches_cli then answer_command w m.source parsed else w in
      let w2 = if matches_pnp then answer_pnp w1 m.source parsed else w1 in
      if not (m.service == net.get_info_service)
      then (false, w)
      else (if not matches_cli && not matches_pnp
          then (false, w)
          else (true, record w2 { state = State.on_message_received w2.state now }))

  unfoldable pub handle_transfer :
      Worker sq.Conn net.Node → Transfer → Bool × Worker sq.Conn net.Node
  unfolding handle_message handle_response
  handle_transfer w (message m t) = handle_message w m t
  handle_transfer w request = (false, w)
  handle_transfer w (response m now) = handle_response w m now

  unfoldable pub handle_transfers :
      Worker sq.Conn net.Node → List Transfer → Worker sq.Conn net.Node
  unfolding handle_transfer
  handle_transfers w [] = w
  handle_transfers w (t ∷ ts) = handle_transfers (handle_transfer w t).1 ts
