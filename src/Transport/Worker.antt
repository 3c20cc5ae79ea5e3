-- ===== src/Transport/Worker.antt =====
-- What the four transport workers share: the interface of the Canadensis node that each drives, the
-- transfers and errors that it reports, and the state of a worker's loop.
use cyphal_service.Common.{ℕ, Bool, Option, List, [], ◌∷◌, ◌++◌, Text, Result}
use cyphal_service.Pnp.Allocator.{AllocationDataV1, AllocationDataV2, PnpAllocator}
use cyphal_service.Transport.State.{WorkerState, Sent, TransportCommand}

-- The fields of `uavcan.node.Heartbeat.1.0`.
pub record HeartbeatMessage : Type 0 where
  pub uptime : ℕ
  pub health : ℕ
  pub mode : ℕ

-- The fields of a `uavcan.node.GetInfo.1.0` response that the workers read.
pub record GetInfoResponse : Type 0 where
  pub name : List ℕ
  pub hardware_version : ℕ × ℕ
  pub software_version : ℕ × ℕ
  pub unique_id : List ℕ

-- The readings of the clock while a message is handled: in the allocator's `on_heartbeat`, twice,
-- and in the worker state's.
pub record Readings : Type 0 where
  pub elapsed_at : ℕ
  pub queried_at : ℕ
  pub received_at : ℕ

pub record Message : Type 0 where
  pub source : Option ℕ
  pub subject : ℕ
  pub payload : List ℕ

pub record Response : Type 0 where
  pub source : ℕ
  pub service : ℕ
  pub payload : List ℕ

-- A call that the node makes of its transfer handler, with the readings during the call.
pub data Transfer : Type 0 where
  message : Message → Readings → Transfer
  request : Transfer
  response : Response → ℕ → Transfer

-- An error of `receive`: its kind, as far as a worker tells it, and its `{:?}` text.
pub data ErrorKind : Type 0 where
  usb_timeout usb_no_device would_block timed_out other_error : ErrorKind

pub record ReceiveError : Type 0 where
  pub kind : ErrorKind
  pub shown : Text

-- What one call of `receive` did: the handler's calls in order, its result, and the node.
pub record Reception (Node : Type 0) : Type 0 where
  pub transfers : List Transfer
  pub outcome : Result (Unit {0}) ReceiveError
  pub node : Node

-- A Canadensis node of one transport, with the message types that it carries. A result that the
-- workers only log is left out.
pub record Cyphal : Type 1 where
  pub Node : Type 0
  pub Token : Type 0
  pub heartbeat_subject : ℕ
  pub pnp_v1_subject : ℕ
  pub pnp_v2_subject : ℕ
  pub get_info_service : ℕ
  -- Whether the transport's node ID type can be made from the number.
  pub is_node_id : ℕ → Bool
  pub parse_heartbeat : List ℕ → Option HeartbeatMessage
  pub parse_v1 : List ℕ → Option AllocationDataV1
  pub parse_v2 : List ℕ → Option AllocationDataV2
  pub parse_get_info : List ℕ → Option GetInfoResponse
  pub from_utf8_lossy : List ℕ → Text
  -- The error is its `{:?}` text.
  pub send_request : Node → Token → ℕ → Result (Unit {0}) Text × Node
  pub publish_v1 : Node → AllocationDataV1 → Node
  pub publish_v2 : Node → AllocationDataV2 → Node
  pub receive : Node → Reception Node
  pub run_per_second_tasks : Node → Node
  pub flush : Node → Node

-- The variables of a worker's loop, and everything that it has sent on reply channels.
pub record Worker (Conn Node : Type 0) : Type 0 where
  pub state : WorkerState
  pub pnp : Option (PnpAllocator Conn)
  pub node : Node
  pub last_second : ℕ
  pub sent : List Sent

-- `let _ = reply.send(…)`.
abbrev pub send : {Conn Node : Type 0} → Worker Conn Node → Sent → Worker Conn Node
send w s = record w { sent = w.sent ++ s ∷ [] }

-- What the environment gives one round of the loop: the commands that are waiting, each with the
-- reading of the clock while it is handled, and the readings of the other steps.
pub record Round : Type 0 where
  pub shutdown : Bool
  pub commands : List (ℕ × TransportCommand)
  pub timeout_at : ℕ
  pub dispatch_at : ℕ
  pub pnp_timeout_at : ℕ
  pub second_elapsed_at : ℕ
  pub second_at : ℕ
