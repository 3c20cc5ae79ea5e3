-- ===== src/Transport/Handle.antt =====
-- src/transport/mod.rs: `TransportHandle`, through which commands reach a worker. What becomes of a
-- call on the channels is an argument.
use cyphal_service.Common.{
  ℕ, suc, ◌+◌, ◌≤◌, ltb, ◌≢◌, ◌≡◌, refl, Bool, false, ◌||◌, Option, none, some, List, [], ◌∷◌, ◌++◌,
  arith, ◌==◌, if◌then◌else◌, Text, text, Result, ok, err, Bool-cases, inl, inr,
}
use cyphal_service.Pnp.Db.{AllocationEntry}
use cyphal_service.Transport.State.{NodeEntry, GetInfoResult, TransportDiagnostics, silent_node}

pub record TransportHandle : Type 0 where
  pub name : Text
  pub local_node_id : Option ℕ

-- `stopped`: the worker has gone, and sending fails. `silent`: there is no reply in time.
pub data Reply {ℓ} (A : Type ℓ) : Type ℓ where
  stopped : Reply A
  silent : Reply A
  replied : A → Reply A

-- `nodes.iter().any(|node| node.node_id == i)`.
abbrev pub has_node : List NodeEntry → ℕ → Bool
has_node [] i = false
has_node (n ∷ ns) i = n.node_id == i || has_node ns i

unfoldable pub with_local : TransportHandle → List NodeEntry → List NodeEntry
with_local h nodes = elim h.local_node_id [
  | none ↦ nodes
  | some i ↦ if has_node nodes i then nodes else nodes ++ silent_node i ∷ []
]

unfoldable pub list_nodes : TransportHandle → Reply (List NodeEntry) → List NodeEntry
unfolding with_local
list_nodes h stopped = []
list_nodes h silent = with_local h []
list_nodes h (replied nodes) = with_local h nodes

unfoldable pub get_info : Reply (Result GetInfoResult Text) → Result GetInfoResult Text
get_info stopped = err (text "transport worker has stopped")
get_info silent = err (text "timed out waiting for GetInfo response")
get_info (replied r) = r

unfoldable pub diagnostics :
    TransportHandle → Reply TransportDiagnostics → Result TransportDiagnostics Text
diagnostics h stopped = err (text "transport worker has stopped")
diagnostics h silent = err (text "timed out waiting for diagnostics")
diagnostics h (replied d) = elim d.local_node_id [
  | none ↦ ok (record d { local_node_id = h.local_node_id })
  | some i ↦ ok d
]

unfoldable pub list_allocations : Reply (List AllocationEntry) → List AllocationEntry
list_allocations stopped = []
list_allocations silent = []
list_allocations (replied es) = es

-- How often a node ID stands in a list.
abbrev pub count_node : List NodeEntry → ℕ → ℕ
count_node [] i = 0
count_node (n ∷ ns) i = let rest = count_node ns i in if n.node_id == i then suc rest else rest

count_node-append :
    (xs ys : List NodeEntry) (i : ℕ) → count_node (xs ++ ys) i ≡ count_node xs i + count_node ys i
count_node-append [] ys i = omega arith
count_node-append (x ∷ xs) ys i = ground (arith, count_node-append xs ys i)

has_node-count : (ns : List NodeEntry) (i : ℕ) → has_node ns i ≡ ltb 0 (count_node ns i)
has_node-count [] i = refl
has_node-count (n ∷ ns) i = ground (arith, has_node-count ns i)

-- Unless the worker has stopped, the list that a handle with a local node gives holds that node,
-- whether or not a reply came, and every other node as often as the reply holds it.
pub list_nodes-local :
    (h : TransportHandle) (i : ℕ) (reply : Reply (List NodeEntry))
    → h.local_node_id ≡ some i
    → reply ≢ stopped
    → (1 ≤ count_node (list_nodes h reply) i)
      × ((j : ℕ)
          → j ≢ i
          → count_node (list_nodes h reply) j
            ≡ (elim reply [ stopped ↦ 0 | silent ↦ 0 | replied nodes ↦ count_node nodes j ]))
unfolding list_nodes with_local
list_nodes-local h i stopped e h' = absurd (h' refl)
list_nodes-local h i silent e h' = rw e (ground arith, λ j ne. ground arith)
list_nodes-local h i (replied nodes) e h' = elim (Bool-cases (has_node nodes i)) [
  | inl there ↦ rw (e, there) (ground (arith, has_node-count nodes i), λ j ne. refl)
  | inr absent ↦
      rw (e, absent)
        (
          ground (arith, count_node-append nodes (silent_node i ∷ []) i),
          λ j ne. ground (arith, count_node-append nodes (silent_node i ∷ []) j),
        )
]
