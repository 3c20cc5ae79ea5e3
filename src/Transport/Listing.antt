-- ===== src/Transport/Listing.antt =====
-- src/transport: the nodes that a worker lists. They change by heartbeats and by the local node's tick
-- only, whatever else the worker does.
pub mod Local
use cyphal_service.Common.{
  ℕ, ◌≡◌, ◌≢◌, refl, sym, ◌∙◌, Bool, true, false, Option, none, some, List, [], ◌∷◌, map, arith,
  ◌==◌, if◌then◌else◌, All, Bool-cases, Option-cases, inl, inr, ==_iff, subst,
}
use cyphal_service.Common.Map
use cyphal_service.Common.Map.{Map}
use cyphal_service.Transport.State
use cyphal_service.Transport.State.{NodeEntry, WorkerState, silent_node, aged}
use cyphal_service.Transport.Worker.{Cyphal, Message, HeartbeatMessage}

-- No two nodes have the same ID.
abbrev pub Distinct : List NodeEntry → Type 0
Distinct [] = Unit {0}
Distinct (n ∷ ns) = All (λ (m : NodeEntry). n.node_id ≢ m.node_id) ns × Distinct ns

-- A heartbeat without a source counts as 0xFFFF's.
abbrev pub source_of : Option ℕ → ℕ
source_of none = 0xFFFF
source_of (some i) = i

abbrev pub heard_entry : ℕ → HeartbeatMessage → NodeEntry
heard_entry i hb = record { node_id = i; uptime = hb.uptime; health = hb.health; mode = hb.mode }

-- What a message makes of the nodes.
abbrev pub heard : (net : Cyphal) → Message → Map NodeEntry → Map NodeEntry
heard net m ns =
    if m.subject == net.heartbeat_subject
    then elim (net.parse_heartbeat m.payload) [
      | none ↦ ns
      | some hb ↦ Map.insert (source_of m.source) (heard_entry (source_of m.source) hb) ns
    ]
    else ns

-- A property of the nodes that a heartbeat keeps, and the local node's tick.
pub record IsKept (local_node_id : ℕ) (I : Map NodeEntry → Type 0) : Type 0 where
  pub by_insert :
      (ns : Map NodeEntry) (i : ℕ) (n : NodeEntry) → n.node_id ≡ i → I ns → I (Map.insert i n ns)
  pub by_tick :
      (s : WorkerState)
      → I s.observed_nodes
      → I (State.tick_local_node s local_node_id).observed_nodes

pub heard-kept :
    {local_node_id : ℕ} {I : Map NodeEntry → Type 0} (k : IsKept local_node_id I) (net : Cyphal)
    (m : Message) (ns : Map NodeEntry)
    → I ns
    → I (heard net m ns)
heard-kept k net m ns h = elim (Bool-cases (m.subject == net.heartbeat_subject)) [
  | inl beat ↦ elim (Option-cases (net.parse_heartbeat m.payload)) [
    | inl nothing ↦ rw (beat, nothing) h
    | inr (hb, parsed) ↦ rw (beat, parsed) (k.by_insert ns (source_of m.source) _ refl h)
  ]
  | inr other ↦ rw other h
]
