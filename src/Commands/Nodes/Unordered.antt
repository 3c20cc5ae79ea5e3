-- ===== src/Commands/Nodes/Unordered.antt =====
-- src/commands/nodes.rs: the order in which a worker lists its nodes, which is that of a hash map,
-- does not show.
use mathlib.Core.List.{Permᴰ}
use cyphal_service.Common.{
  ◌≡◌, refl, sym, ap, ap₂, ◌∙◌, List, [], ◌∷◌, ◌++◌, map, leb, Text, text, text_eq, Result, ok, err,
  Bool-cases, Option-cases, inl, inr,
}
use cyphal_service.Transport.State.{NodeEntry, silent_node}
use cyphal_service.Transport.Handle.{
  TransportHandle, Reply, stopped, silent, replied, has_node, with_local, list_nodes,
}
use cyphal_service.Commands.Selection.{Attached, named, unknown_transport, select}
use cyphal_service.Commands.Texts.{trim_end}
use cyphal_service.Commands.Nodes.{
  insert_node, sort_nodes, node_columns, node_lines, node_table, node_sections, nodes_execute,
}
use cyphal_service.Commands.Nodes.Order.{
  sort_nodes-Perm, has_node-Perm, append-Perm, Distinct-append,
}
use cyphal_service.Transport.Listing.{Distinct}

-- Two replies that list the same nodes, no two under one ID, or the same lack of a reply.
abbrev pub SameReply : Reply (List NodeEntry) → Reply (List NodeEntry) → Type 0
SameReply stopped stopped = Unit
SameReply silent silent = Unit
SameReply (replied ns) (replied ms) = Permᴰ ns ms × Distinct ns
SameReply r s = ⊥

-- The lists that handles make of such replies.
list_nodes-Perm :
    (h : TransportHandle) (ns ms : List NodeEntry)
    → Permᴰ ns ms
    → Distinct ns
    → Permᴰ (with_local h ns) (with_local h ms) × Distinct (with_local h ns)
unfolding with_local
list_nodes-Perm h ns ms p d = elim (Option-cases h.local_node_id) [
  | inl nothing ↦ rw (nothing, with_local) (p, d)
  | inr (i, known) ↦ elim (Bool-cases (has_node ns i)) [
    | inl there ↦ rw (known, there, sym (has_node-Perm i p) ∙ there, with_local) (p, d)
    | inr absent ↦
        rw (known, absent, sym (has_node-Perm i p) ∙ absent, with_local)
          (append-Perm (silent_node i) p, Distinct-append ns (silent_node i) absent d)
  ]
]

-- The table, from the nodes in order.
abbrev sorted_table : List NodeEntry → Text
sorted_table [] = node_table []
sorted_table (n ∷ ns) =
    node_columns (text "Node ID") (text "Uptime(s)") (text "Health") (text "Mode")
    ++ node_lines (n ∷ ns)

node_table-sort_nodes : (ns : List NodeEntry) → node_table ns ≡ sorted_table (sort_nodes ns)
unfolding sort_nodes
node_table-sort_nodes [] = refl
node_table-sort_nodes (n ∷ ns) = nonempty (sort_nodes ns)
  where
    nonempty :
        (ms : List NodeEntry)
        → (node_columns (text "Node ID") (text "Uptime(s)") (text "Health") (text "Mode")
            ++ node_lines (insert_node n ms))
          ≡ sorted_table (insert_node n ms)
    nonempty [] = refl
    nonempty (m ∷ ms) = elim (Bool-cases (leb n.node_id m.node_id)) [
      | inl low ↦ rw low refl
      | inr high ↦ rw high refl
    ]

table-same :
    (h : TransportHandle) (r s : Reply (List NodeEntry))
    → SameReply r s
    → node_table (list_nodes h r) ≡ node_table (list_nodes h s)
unfolding list_nodes
table-same h stopped stopped e = refl
table-same h stopped silent e = elim e [ ]
table-same h stopped (replied ms) e = elim e [ ]
table-same h silent stopped e = elim e [ ]
table-same h silent silent e = refl
table-same h silent (replied ms) e = elim e [ ]
table-same h (replied ns) stopped e = elim e [ ]
table-same h (replied ns) silent e = elim e [ ]
table-same h (replied ns) (replied ms) e =
    let (p, d) = list_nodes-Perm h ns ms e.0 e.1 in
    node_table-sort_nodes (with_local h ns)
    ∙ ap sorted_table (sort_nodes-Perm p d)
    ∙ sym (node_table-sort_nodes (with_local h ms))

-- The same handles, with such replies.
abbrev pub SameReplies :
    List (Attached (List NodeEntry)) → List (Attached (List NodeEntry)) → Type 0
SameReplies [] [] = Unit
SameReplies (h ∷ hs) (k ∷ ks) = (h.0 ≡ k.0) × SameReply h.1 k.1 × SameReplies hs ks
SameReplies hs ks = ⊥

node_sections-same :
    (hs ks : List (Attached (List NodeEntry)))
    → SameReplies hs ks
    → node_sections hs ≡ node_sections ks
unfolding node_sections
node_sections-same [] [] e = refl
node_sections-same [] (k ∷ ks) e = elim e [ ]
node_sections-same (h ∷ hs) [] e = elim e [ ]
node_sections-same (h ∷ hs) (k ∷ ks) e =
    ap₂ (λ (x : TransportHandle) t. text "Transport: " ++ (x.name ++ (10 ∷ t))) e.0
      (ap₂ (λ t u. t ++ u)
        (ap (λ x. node_table (list_nodes x h.1)) e.0 ∙ table-same k.0 h.1 k.1 e.1)
        (node_sections-same hs ks e.2))

names-same :
    (hs ks : List (Attached (List NodeEntry)))
    → SameReplies hs ks
    → map (λ h. h.0.name) hs ≡ map (λ h. h.0.name) ks
names-same [] [] e = refl
names-same [] (k ∷ ks) e = elim e [ ]
names-same (h ∷ hs) [] e = elim e [ ]
names-same (h ∷ hs) (k ∷ ks) e =
    ap₂ (λ (x : TransportHandle) t. x.name ∷ t) e.0 (names-same hs ks e.2)

named-same :
    (name : Text) (hs ks : List (Attached (List NodeEntry)))
    → SameReplies hs ks
    → SameReplies (named name hs) (named name ks)
unfolding named
named-same name [] [] e = tt
named-same name [] (k ∷ ks) e = elim e [ ]
named-same name (h ∷ hs) [] e = elim e [ ]
named-same name (h ∷ hs) (k ∷ ks) e =
    let here = ap (λ (x : TransportHandle). text_eq x.name name) e.0 in
    elim (Bool-cases (text_eq h.0.name name)) [
      | inl fits ↦ rw (fits, sym here ∙ fits) (e.0, e.1, named-same name hs ks e.2)
      | inr other ↦ rw (other, sym here ∙ other) (named-same name hs ks e.2)
    ]

-- What is said once the transports are selected.
abbrev shown : Result (List (Attached (List NodeEntry))) Text → Text
shown (ok selected) = trim_end (node_sections selected)
shown (err e) = e

abbrev select_text : List Text → List (Attached (List NodeEntry)) → Text
select_text args hs = shown (select args hs)

select-same :
    (args : List Text) (hs ks : List (Attached (List NodeEntry)))
    → SameReplies hs ks
    → select_text args hs ≡ select_text args ks
unfolding select
select-same [] hs ks e = ap trim_end (node_sections-same hs ks e)
select-same (name ∷ args) hs ks e = found (named name hs) (named name ks) (named-same name hs ks e)
  where
    found :
        (fs gs : List (Attached (List NodeEntry)))
        → SameReplies fs gs
        → shown (elim fs [
          | [] ↦ err (unknown_transport name (map (λ h. h.0.name) hs))
          | h ∷ rest ↦ ok (h ∷ rest)
        ])
          ≡ shown (elim gs [
            | [] ↦ err (unknown_transport name (map (λ h. h.0.name) ks))
            | h ∷ rest ↦ ok (h ∷ rest)
          ])
    found [] [] e' = ap (unknown_transport name) (names-same hs ks e)
    found [] (g ∷ gs) e' = elim e' [ ]
    found (f ∷ fs) [] e' = elim e' [ ]
    found (f ∷ fs) (g ∷ gs) e' = ap trim_end (node_sections-same (f ∷ fs) (g ∷ gs) e')

-- What `nodes` says of all transports, or of one, does not depend on the order in which the workers
-- list their nodes, as long as no worker lists two nodes of one ID.
pub nodes_execute-same :
    (hs ks : List (Attached (List NodeEntry))) (args : List Text)
    → SameReplies hs ks
    → nodes_execute hs args ≡ nodes_execute ks args
unfolding nodes_execute
nodes_execute-same [] [] args e = refl
nodes_execute-same [] (k ∷ ks) args e = elim e [ ]
nodes_execute-same (h ∷ hs) [] args e = elim e [ ]
nodes_execute-same (h ∷ hs) (k ∷ ks) args e = select-same args (h ∷ hs) (k ∷ ks) e
