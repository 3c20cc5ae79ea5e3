-- ===== src/Transport/Answers.antt =====
-- src/transport: the workers' replies to commands, for all four transports.
use cyphal_service.Common.{ℕ, ◌+◌, ◌≤◌, ◌≡◌, Option, none, List, [], ◌∷◌}
use cyphal_service.Pnp.Sqlite.{Sqlite}
use cyphal_service.Transport.State.{TransportCommand}
use cyphal_service.Transport.Worker.{Cyphal, Worker, Round}
use cyphal_service.Transport.Replies.{ReplyChannel, owed, asks_on, asked_in}
use cyphal_service.Transport.Udp.Loop as Udp
use cyphal_service.Transport.Serial.Loop as Serial
use cyphal_service.Transport.Socketcan.Loop as Socketcan
use cyphal_service.Transport.Gsusb.Worker.Loop as Gsusb
use cyphal_service.Transport.Udp.Replies as UdpReplies
use cyphal_service.Transport.Serial.Replies as SerialReplies
use cyphal_service.Transport.Socketcan.Replies as SocketcanReplies
use cyphal_service.Transport.Gsusb.Worker.Replies as GsusbReplies

module _ (sq : Sqlite) (net : Cyphal) (token : Option net.Token) (local_node_id : ℕ)
    (w : Worker sq.Conn net.Node) where
  -- In any run of each of the four workers, a channel is sent at most as many answers of its kind
  -- as it was owed at the start and as commands came with it: no command, on a channel of its own,
  -- is answered twice.
  pub answered_at_most_once :
      (rounds : List Round) (ch : ReplyChannel)
      → (owed (Udp.run_loop sq net token local_node_id w rounds) ch
          ≤ owed w ch + asked_in ch rounds)
        × (owed (Serial.run_loop sq net token local_node_id w rounds) ch
            ≤ owed w ch + asked_in ch rounds)
        × (owed (Socketcan.run_loop sq net token local_node_id w rounds) ch
            ≤ owed w ch + asked_in ch rounds)
        × (owed (Gsusb.run_loop sq net token local_node_id w rounds) ch
            ≤ owed w ch + asked_in ch rounds)
  answered_at_most_once rounds ch = (
    UdpReplies.run_loop-owed sq net token local_node_id w rounds ch,
    SerialReplies.run_loop-owed sq net token local_node_id w rounds ch,
    SocketcanReplies.run_loop-owed sq net token local_node_id w rounds ch,
    GsusbReplies.run_loop-owed sq net token local_node_id w rounds ch,
  )

  -- In each of the four workers, a round whose only command is taken while no GetInfo is pending
  -- moves every channel's account, the answers of its kind that were sent and that are pending on
  -- it, by exactly what the command asks on it: the command has an answer of its kind, or is a
  -- GetInfo that is pending, and no answer is lost.
  pub command_accounted :
      (r : Round) (now : ℕ) (c : TransportCommand) (ch : ReplyChannel)
      → r.commands ≡ (now, c) ∷ []
      → w.state.pending_get_info ≡ none
      → (owed (Udp.poll sq net token local_node_id w r) ch ≡ owed w ch + asks_on ch c)
        × (owed (Serial.poll sq net token local_node_id w r) ch ≡ owed w ch + asks_on ch c)
        × (owed (Socketcan.poll sq net token local_node_id w r) ch ≡ owed w ch + asks_on ch c)
        × (owed (Gsusb.poll sq net token local_node_id w r) ch ≡ owed w ch + asks_on ch c)
  command_accounted r now c ch one idle = (
    UdpReplies.poll-owed_exact sq net token local_node_id w r now c ch one idle,
    SerialReplies.poll-owed_exact sq net token local_node_id w r now c ch one idle,
    SocketcanReplies.poll-owed_exact sq net token local_node_id w r now c ch one idle,
    GsusbReplies.poll-owed_exact sq net token local_node_id w r now c ch one idle,
  )
