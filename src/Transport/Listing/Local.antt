-- ===== src/Transport/Listing/Local.antt =====
-- src/transport: the local node among those that a worker lists, in every run of each of the four
-- workers.
use cyphal_service.Common.{
  ℕ, ◌≡◌, ◌≢◌, refl, sym, ◌∙◌, true, Option, none, some, List, [], ◌∷◌, arith, ◌==◌, All,
  Bool-cases, Option-cases, inl, inr, is_some, Text, subst, ap,
}
use cyphal_service.Common.Map
use cyphal_service.Common.Map.{Map}
use cyphal_service.Pnp.Sqlite.{Sqlite}
use cyphal_service.Transport.State
use cyphal_service.Transport.State.{NodeEntry, WorkerState, silent_node, aged, node_list}
use cyphal_service.Transport.Handle.{replied, has_node, with_local, list_nodes}
use cyphal_service.Transport.Worker.{Cyphal, Worker, Round}
use cyphal_service.Transport.Listing.{Distinct, IsKept}
use cyphal_service.Transport.Udp.Loop as Udp
use cyphal_service.Transport.Serial.Loop as Serial
use cyphal_service.Transport.Socketcan.Loop as Socketcan
use cyphal_service.Transport.Gsusb.Worker.Loop as Gsusb
use cyphal_service.Transport.Udp.Listing as UdpListing
use cyphal_service.Transport.Serial.Listing as SerialListing
use cyphal_service.Transport.Socketcan.Listing as SocketcanListing
use cyphal_service.Transport.Gsusb.Worker.Listing as GsusbListing

-- Each entry stands under its own ID, and once.
abbrev Keyed : Map NodeEntry → Type 0
Keyed [] = Unit {0}
Keyed ((k, n) ∷ ns) = (n.node_id ≡ k) × (Map.get k ns ≡ none) × Keyed ns

insert-Keyed :
    (i : ℕ) (n : NodeEntry) (ns : Map NodeEntry)
    → n.node_id ≡ i
    → Keyed ns
    → Keyed (Map.insert i n ns)
unfolding Map.insert Map.get
insert-Keyed i n [] e h = (e, refl, tt)
insert-Keyed i n ((k, m) ∷ ns) e h = elim (Bool-cases (k == i)) [
  | inl same ↦
      let ki : k ≡ i = ground arith in rw same (e, subst (λ j. Map.get j ns ≡ none) ki h.1, h.2)
  | inr other ↦
      rw other (h.0, Map.get-insert i k n ns ∙ ground (arith, h.1), insert-Keyed i n ns e h.2)
]

-- What is found under an ID has that ID.
get-Keyed :
    (i : ℕ) (n : NodeEntry) (ns : Map NodeEntry) → Keyed ns → Map.get i ns ≡ some n → n.node_id ≡ i
unfolding Map.get
get-Keyed i n [] h e = cc
get-Keyed i n ((k, m) ∷ ns) h e = elim (Bool-cases (k == i)) [
  | inl same ↦ ground (arith, h.0)
  | inr other ↦ get-Keyed i n ns h.2 (ground arith)
]

has_node-Keyed :
    (i : ℕ) (ns : Map NodeEntry) → Keyed ns → has_node (Map.values ns) i ≡ is_some (Map.get i ns)
unfolding Map.get Map.values
has_node-Keyed i [] h = refl
has_node-Keyed i ((k, n) ∷ ns) h = ground (arith, h.0, has_node-Keyed i ns h.2)

absent-All :
    (i : ℕ) (ns : Map NodeEntry)
    → Keyed ns
    → Map.get i ns ≡ none
    → All (λ (m : NodeEntry). i ≢ m.node_id) (Map.values ns)
unfolding Map.get Map.values
absent-All i [] h e = tt
absent-All i ((k, n) ∷ ns) h e = elim (Bool-cases (k == i)) [
  | inl same ↦ ground (arith, e)
  | inr other ↦ (ground (arith, h.0), absent-All i ns h.2 (ground (arith, e)))
]

Keyed-Distinct : (ns : Map NodeEntry) → Keyed ns → Distinct (Map.values ns)
unfolding Map.values
Keyed-Distinct [] h = tt
Keyed-Distinct ((k, n) ∷ ns) h = (
  subst (λ (i : ℕ). All (λ (m : NodeEntry). i ≢ m.node_id) (Map.values ns)) (sym h.0)
      (absent-All k ns h.2 h.1),
  Keyed-Distinct ns h.2,
)

-- Every entry stands under its own ID, once, and the local node is there.
abbrev HasLocal : ℕ → Map NodeEntry → Type 0
HasLocal i ns = Keyed ns × (is_some (Map.get i ns) ≡ true)

tick_local_node-nodes :
    (s : WorkerState) (i : ℕ) (n : NodeEntry)
    → Map.get i s.observed_nodes ≡ some n
    → (State.tick_local_node s i).observed_nodes ≡ Map.insert i (aged n) s.observed_nodes
unfolding State.tick_local_node State.register_local_node
tick_local_node-nodes s i n there = ground (arith, there)

tick_local_node-HasLocal :
    (i : ℕ) (s : WorkerState)
    → HasLocal i s.observed_nodes
    → HasLocal i (State.tick_local_node s i).observed_nodes
tick_local_node-HasLocal i s h = elim (Option-cases (Map.get i s.observed_nodes)) [
  | inl nothing ↦ ground (arith, h.1, nothing)
  | inr (n, there) ↦ rw (tick_local_node-nodes s i n there) (
    insert-Keyed i (aged n) s.observed_nodes (get-Keyed i n s.observed_nodes h.0 there) h.0,
    ap is_some (Map.get-insert i i (aged n) s.observed_nodes) ∙ ground arith,
  )
]

HasLocal-IsKept : (i : ℕ) → IsKept i (HasLocal i)
HasLocal-IsKept i = record {
  by_insert = λ ns j n e h.
      (insert-Keyed j n ns e h.0, ap is_some (Map.get-insert j i n ns) ∙ ground (arith, h.1));
  by_tick = tick_local_node-HasLocal i;
}

-- What an operator is told of the local node: it is among the nodes, no ID is listed twice, and a
-- handle of that node ID passes the list on as it is.
abbrev pub IsListed : {Conn Node : Type 0} → ℕ → Worker Conn Node → Type 0
IsListed i w =
    (has_node (node_list w.state) i ≡ true)
    × Distinct (node_list w.state)
    × ((name : Text)
        → list_nodes (record { name = name; local_node_id = some i }) (replied (node_list w.state))
          ≡ node_list w.state)

list_nodes-replied :
    (name : Text) (i : ℕ) (nodes : List NodeEntry)
    → has_node nodes i ≡ true
    → list_nodes (record { name = name; local_node_id = some i }) (replied nodes) ≡ nodes
unfolding list_nodes with_local
list_nodes-replied name i nodes there = rw (there, list_nodes, with_local) refl

HasLocal-IsListed :
    {Conn Node : Type 0} (i : ℕ) (w : Worker Conn Node)
    → HasLocal i w.state.observed_nodes
    → IsListed i w
unfolding node_list
HasLocal-IsListed i w h =
    let there = has_node-Keyed i w.state.observed_nodes h.0 ∙ h.1 in
    (
      there,
      Keyed-Distinct w.state.observed_nodes h.0,
      λ name. list_nodes-replied name i (Map.values w.state.observed_nodes) there,
    )

module _ (sq : Sqlite) (net : Cyphal) (token : Option net.Token) (i : ℕ) (node : net.Node)
    (db : Option sq.Conn) (now : ℕ) (rounds : List Round) where
  start-HasLocal : HasLocal i (State.register_local_node State.default i).observed_nodes
  unfolding State.register_local_node State.default Map.get Map.insert
  start-HasLocal = ((refl, refl, tt), ground arith)

  -- Each of the four workers, from its start and whatever happens in its rounds, lists its own node
  -- and lists no node ID twice, so that a handle of its node ID passes the list on as it is.
  pub run_loop-IsListed :
      IsListed i (Udp.run_loop sq net token i (Udp.init_worker sq net node i db now) rounds)
      × IsListed i (Serial.run_loop sq net token i (Serial.init_worker sq net node i db now) rounds)
      × IsListed i
          (Socketcan.run_loop sq net token i (Socketcan.init_worker sq net node i db now) rounds)
      × IsListed i (Gsusb.run_loop sq net token i (Gsusb.init_worker sq net node i db now) rounds)
  unfolding Udp.init_worker Serial.init_worker Socketcan.init_worker Gsusb.init_worker
  run_loop-IsListed =
      let k = HasLocal-IsKept i in
      (
        HasLocal-IsListed i
            (Udp.run_loop sq net token i (Udp.init_worker sq net node i db now) rounds)
            (UdpListing.run_loop-kept sq net k token (Udp.init_worker sq net node i db now) rounds
              start-HasLocal),
        HasLocal-IsListed i
            (Serial.run_loop sq net token i (Serial.init_worker sq net node i db now) rounds)
            (SerialListing.run_loop-kept sq net k token (Serial.init_worker sq net node i db now)
              rounds start-HasLocal),
        HasLocal-IsListed i
            (Socketcan.run_loop sq net token i (Socketcan.init_worker sq net node i db now) rounds)
            (SocketcanListing.run_loop-kept sq net k token
              (Socketcan.init_worker sq net node i db now) rounds start-HasLocal),
        HasLocal-IsListed i
            (Gsusb.run_loop sq net token i (Gsusb.init_worker sq net node i db now) rounds)
            (GsusbListing.run_loop-kept sq net k token (Gsusb.init_worker sq net node i db now)
              rounds start-HasLocal),
      )
