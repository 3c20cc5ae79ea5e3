-- ===== src/Commands/Nodes.antt =====
-- src/commands/nodes.rs: the list of nodes that transports observed.
mod Order
pub mod Unordered
use cyphal_service.Common.{ℕ, List, [], ◌∷◌, ◌++◌, leb, if◌then◌else◌, Text, text}
use cyphal_service.Common.Decimal.{decimal}
use cyphal_service.Transport.State.{NodeEntry}
use cyphal_service.Transport.Handle.{TransportHandle, Reply, list_nodes}
use cyphal_service.Commands.Texts.{padded, trim_end}
use cyphal_service.Commands.Selection.{Attached, select, over_selected}

unfoldable pub insert_node : NodeEntry → List NodeEntry → List NodeEntry
insert_node n [] = n ∷ []
insert_node n (m ∷ ms) =
    let rest = insert_node n ms in if leb n.node_id m.node_id then n ∷ m ∷ ms else m ∷ rest

-- `sort_by_key(|n| n.node_id)`, a stable sort.
unfoldable pub sort_nodes : List NodeEntry → List NodeEntry
unfolding insert_node
sort_nodes [] = []
sort_nodes (n ∷ ns) = insert_node n (sort_nodes ns)

-- `"  {:<8} {:<10} {:<10} {:<8}\n"`.
abbrev pub node_columns : Text → Text → Text → Text → Text
node_columns a b c d =
    text "  "
    ++ (padded 8 a
        ++ (text " "
            ++ (padded 10 b
                ++ (text " " ++ (padded 10 c ++ (text " " ++ (padded 8 d ++ 10 ∷ [])))))))

abbrev pub node_line : NodeEntry → Text
node_line n =
    node_columns (decimal n.node_id) (decimal n.uptime) (decimal n.health) (decimal n.mode)

unfoldable pub node_lines : List NodeEntry → Text
node_lines [] = []
node_lines (n ∷ ns) = node_line n ++ node_lines ns

abbrev pub node_table : List NodeEntry → Text
node_table [] = text "  (no nodes observed)" ++ 10 ∷ []
node_table (n ∷ ns) =
    node_columns (text "Node ID") (text "Uptime(s)") (text "Health") (text "Mode")
    ++ node_lines (sort_nodes (n ∷ ns))

unfoldable pub node_sections : List (Attached (List NodeEntry)) → Text
unfolding sort_nodes node_lines
node_sections [] = []
node_sections ((h, reply) ∷ hs) =
    text "Transport: " ++ (h.name ++ (10 ∷ (node_table (list_nodes h reply) ++ node_sections hs)))

-- `NodesCommand::execute`.
unfoldable pub nodes_execute : List (Attached (List NodeEntry)) → List Text → Text
unfolding select node_sections
nodes_execute = over_selected (λ selected. trim_end (node_sections selected))
