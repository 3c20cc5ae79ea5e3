-- ===== src/Transport/State.antt =====
-- src/transport/mod.rs: the state of a transport worker. Times are nanoseconds of one monotonic
-- clock; an operation that reads the clock takes the reading as an argument. A reply channel is a
-- number, and an operation that answers on one returns what it sends.
pub mod Recent
use mathlib.Core.Option
use cyphal_service.Common.{
  ℕ, ◌+◌, ◌-◌, ◌^◌, min, Bool, true, false, Option, none, some, List, [], ◌∷◌, ◌++◌, ltb,
  if◌then◌else◌, is_some_and, length, Text, text, Result, ok, err,
}
use cyphal_service.Common.Map
use cyphal_service.Common.Map.{Map}
use cyphal_service.Pnp.Db.{AllocationEntry}

pub record NodeEntry : Type 0 where
  pub node_id : ℕ
  pub uptime : ℕ
  pub health : ℕ
  pub mode : ℕ

pub record GetInfoResult : Type 0 where
  pub node_id : ℕ
  pub name : Text
  pub hardware_version : ℕ × ℕ
  pub software_version : ℕ × ℕ
  pub unique_id : List ℕ

pub record TransportDiagnostics : Type 0 where
  pub local_node_id : Option ℕ
  pub observed_node_count : ℕ
  pub total_messages_received : ℕ
  pub heartbeat_messages_received : ℕ
  pub get_info_requests_sent : ℕ
  pub get_info_responses_received : ℕ
  pub recent_heartbeat_sources : List ℕ
  pub last_message_age : Option ℕ
  pub last_heartbeat_age : Option ℕ
  pub last_error : Option Text
  pub pnp_enabled : Bool
  pub pnp_allocations_served : ℕ

-- A command, with the channel for its reply.
pub data TransportCommand : Type 0 where
  list_nodes : ℕ → TransportCommand
  get_info : ℕ → ℕ → TransportCommand
  diagnostics_of : ℕ → TransportCommand
  list_allocations : ℕ → TransportCommand

-- What is sent on a reply channel.
pub data Sent : Type 0 where
  nodes : ℕ → List NodeEntry → Sent
  info : ℕ → Result GetInfoResult Text → Sent
  diagnostics : ℕ → TransportDiagnostics → Sent
  allocations : ℕ → List AllocationEntry → Sent

pub record PnpGetInfoPending : Type 0 where
  pub node_id : ℕ
  pub deadline : ℕ

pub record PendingGetInfo : Type 0 where
  pub node_id : ℕ
  pub reply : ℕ
  pub deadline : ℕ

pub record WorkerState : Type 0 where
  pub observed_nodes : Map NodeEntry
  pub pending_get_info : Option PendingGetInfo
  pub pnp_pending_get_info : Option PnpGetInfoPending
  pub total_messages_received : ℕ
  pub heartbeat_messages_received : ℕ
  pub get_info_requests_sent : ℕ
  pub get_info_responses_received : ℕ
  pub recent_heartbeat_sources : List ℕ
  pub last_message_at : Option ℕ
  pub last_heartbeat_at : Option ℕ
  pub last_error : Option Text
  pub pnp_allocations_served : ℕ

-- `WorkerState::default()`.
unfoldable pub default : WorkerState
default = record {
  observed_nodes = [];
  pending_get_info = none;
  pnp_pending_get_info = none;
  total_messages_received = 0;
  heartbeat_messages_received = 0;
  get_info_requests_sent = 0;
  get_info_responses_received = 0;
  recent_heartbeat_sources = [];
  last_message_at = none;
  last_heartbeat_at = none;
  last_error = none;
  pnp_allocations_served = 0;
}

-- `saturating_add(1)` on u64 and on u32.
abbrev pub increment_u64 : ℕ → ℕ
increment_u64 n = min (n + 1) (2 ^ 64 - 1)

abbrev pub increment_u32 : ℕ → ℕ
increment_u32 n = min (n + 1) (2 ^ 32 - 1)

abbrev pub silent_node : ℕ → NodeEntry
silent_node node_id = record { node_id = node_id; uptime = 0; health = 0; mode = 0 }

-- `entry(node_id).or_insert(…)`.
unfoldable pub register_local_node : WorkerState → ℕ → WorkerState
register_local_node s node_id = elim (Map.get node_id s.observed_nodes) [
  | none ↦ record s { observed_nodes = Map.insert node_id (silent_node node_id) s.observed_nodes }
  | some _ ↦ s
]

abbrev pub aged : NodeEntry → NodeEntry
aged n = record n { uptime = increment_u32 n.uptime }

unfoldable pub tick_local_node : WorkerState → ℕ → WorkerState
tick_local_node s node_id =
    let s' = register_local_node s node_id in
    elim (Map.get node_id s'.observed_nodes) [
      | none ↦ s'
      | some n ↦ record s' { observed_nodes = Map.insert node_id (aged n) s'.observed_nodes }
    ]

-- `while len() > 8 { pop_front(); }`
unfoldable pub trim : List ℕ → List ℕ
trim [] = []
trim (x ∷ xs) = if ltb 8 (length (x ∷ xs)) then trim xs else x ∷ xs

-- `now` is the reading at the start; the arguments after it are the heartbeat's fields.
unfoldable pub on_heartbeat : WorkerState → ℕ → ℕ → ℕ → ℕ → ℕ → WorkerState
on_heartbeat s now node_id uptime health mode = record s {
  observed_nodes =
      Map.insert node_id
        (record { node_id = node_id; uptime = uptime; health = health; mode = mode })
        s.observed_nodes;
  total_messages_received = increment_u64 s.total_messages_received;
  heartbeat_messages_received = increment_u64 s.heartbeat_messages_received;
  recent_heartbeat_sources = trim (s.recent_heartbeat_sources ++ node_id ∷ []);
  last_message_at = some now;
  last_heartbeat_at = some now;
}

-- `reply.send(result)`, on the channel of the pending request if there is one.
unfoldable pub on_get_info_response :
    WorkerState → Result GetInfoResult Text → WorkerState × List Sent
on_get_info_response s result =
    let s' = record s {
      pending_get_info = none;
      get_info_responses_received = increment_u64 s.get_info_responses_received;
    } in
    elim s.pending_get_info [ none ↦ (s', []) | some p ↦ (s', info p.reply result ∷ []) ]

unfoldable pub on_get_info_request_sent : WorkerState → WorkerState
on_get_info_request_sent s = record s {
  get_info_requests_sent = increment_u64 s.get_info_requests_sent;
}

unfoldable pub on_message_received : WorkerState → ℕ → WorkerState
on_message_received s now = record s {
  total_messages_received = increment_u64 s.total_messages_received;
  last_message_at = some now;
}

unfoldable pub record_error : WorkerState → Text → WorkerState
record_error s e = record s { last_error = some e }

unfoldable pub on_pnp_allocated : WorkerState → WorkerState
on_pnp_allocated s = record s { pnp_allocations_served = increment_u64 s.pnp_allocations_served }

unfoldable pub check_get_info_timeout : WorkerState → ℕ → WorkerState × List Sent
check_get_info_timeout s now = elim s.pending_get_info [
  | none ↦ (s, [])
  | some p ↦
      if ltb p.deadline now
      then (
        record s { pending_get_info = none },
        info p.reply (err (text "GetInfo request timed out")) ∷ [],
      )
      else (s, [])
]

unfoldable pub check_pnp_get_info_timeout : WorkerState → ℕ → Option ℕ × WorkerState
check_pnp_get_info_timeout s now = elim s.pnp_pending_get_info [
  | none ↦ (none, s)
  | some p ↦
      if ltb p.deadline now
      then (some p.node_id, record s { pnp_pending_get_info = none })
      else (none, s)
]

unfoldable pub node_list : WorkerState → List NodeEntry
node_list s = Map.values s.observed_nodes

-- `now` is the reading of both `elapsed()` calls. The caller sets `pnp_enabled`.
unfoldable pub diagnostics_at : WorkerState → Option ℕ → ℕ → TransportDiagnostics
diagnostics_at s local_node_id now = record {
  local_node_id = local_node_id;
  observed_node_count = length s.observed_nodes;
  total_messages_received = s.total_messages_received;
  heartbeat_messages_received = s.heartbeat_messages_received;
  get_info_requests_sent = s.get_info_requests_sent;
  get_info_responses_received = s.get_info_responses_received;
  recent_heartbeat_sources = s.recent_heartbeat_sources;
  last_message_age = Option.map (λ at. now - at) s.last_message_at;
  last_heartbeat_age = Option.map (λ at. now - at) s.last_heartbeat_at;
  last_error = s.last_error;
  pnp_enabled = false;
  pnp_allocations_served = s.pnp_allocations_served;
}
