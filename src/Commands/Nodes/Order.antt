-- ===== src/Commands/Nodes/Order.antt =====
-- src/commands/nodes.rs: sorting the nodes of a reply undoes any order that they had.
use mathlib.Core.List.{Permᴰ}
use cyphal_service.Common.{
  ℕ, ◌≡◌, ◌≢◌, refl, sym, ap₂, ◌∙◌, Bool, false, ◌||◌, List, [], ◌∷◌, ◌++◌, arith, ◌==◌, All, subst,
}
use cyphal_service.Transport.State.{NodeEntry}
use cyphal_service.Transport.Handle.{has_node}
use cyphal_service.Transport.Listing.{Distinct}
use cyphal_service.Commands.Nodes.{insert_node, sort_nodes}

insert_node-insert_node :
    (a b : NodeEntry) (ns : List NodeEntry)
    → a.node_id ≢ b.node_id
    → insert_node a (insert_node b ns) ≡ insert_node b (insert_node a ns)
unfolding insert_node
insert_node-insert_node a b [] h = ground (arith, h)
insert_node-insert_node a b (n ∷ ns) h = ground (arith, insert_node-insert_node a b ns h)

All-Perm : (P : NodeEntry → Type 0) {ns ms : List NodeEntry} → Permᴰ ns ms → All P ns → All P ms
All-Perm P Permᴰ.nil h = h
All-Perm P (Permᴰ.cons e p) h = (subst P e h.0, All-Perm P p h.1)
All-Perm P (Permᴰ.swap e f) h = (subst P f h.1.0, (subst P e h.0, h.1.1))
All-Perm P (Permᴰ.trans p q) h = All-Perm P q (All-Perm P p h)

Distinct-Perm : {ns ms : List NodeEntry} → Permᴰ ns ms → Distinct ns → Distinct ms
Distinct-Perm Permᴰ.nil h = h
Distinct-Perm (Permᴰ.cons {l₂ = ms} e p) h = (
  subst (λ (n : NodeEntry). All (λ (m : NodeEntry). n.node_id ≢ m.node_id) ms) e (All-Perm _ p h.0),
  Distinct-Perm p h.1,
)
Distinct-Perm (Permᴰ.swap {a = a} {b = b} {b' = b'} {l = ns} e f) h =
    subst (λ (m : NodeEntry). Distinct (m ∷ b' ∷ ns)) f
      (subst (λ (m : NodeEntry). Distinct (b ∷ m ∷ ns)) e
        (((λ same. h.0.0 (sym same)), h.1.0), (h.0.1, h.1.1)))
Distinct-Perm (Permᴰ.trans p q) h = Distinct-Perm q (Distinct-Perm p h)

pub sort_nodes-Perm :
    {ns ms : List NodeEntry} → Permᴰ ns ms → Distinct ns → sort_nodes ns ≡ sort_nodes ms
unfolding sort_nodes
sort_nodes-Perm Permᴰ.nil h = refl
sort_nodes-Perm (Permᴰ.cons e p) h = ap₂ insert_node e (sort_nodes-Perm p h.1)
sort_nodes-Perm (Permᴰ.swap {a = a} {b = b} {l = ns} e f) h =
    insert_node-insert_node a b (sort_nodes ns) h.0.0
    ∙ ap₂ (λ x y. insert_node x (insert_node y (sort_nodes ns))) f e
sort_nodes-Perm (Permᴰ.trans p q) h = sort_nodes-Perm p h ∙ sort_nodes-Perm q (Distinct-Perm p h)

pub has_node-Perm : {ns ms : List NodeEntry} (i : ℕ) → Permᴰ ns ms → has_node ns i ≡ has_node ms i
has_node-Perm i Permᴰ.nil = refl
has_node-Perm i (Permᴰ.cons e p) =
    ap₂ (λ (n : NodeEntry) b. n.node_id == i || b) e (has_node-Perm i p)
has_node-Perm i (Permᴰ.swap {a = a} {b = b} {l = ns} e f) =
    either (a.node_id == i) (b.node_id == i) (has_node ns i)
    ∙ ap₂ (λ (x y : NodeEntry). x.node_id == i || (y.node_id == i || has_node ns i)) f e
  where
    either : (x y z : Bool) → (x || (y || z)) ≡ (y || (x || z))
    either x y z = ground arith
has_node-Perm i (Permᴰ.trans p q) = has_node-Perm i p ∙ has_node-Perm i q

pub append-Perm :
    {ns ms : List NodeEntry} (n : NodeEntry) → Permᴰ ns ms → Permᴰ (ns ++ n ∷ []) (ms ++ n ∷ [])
append-Perm n Permᴰ.nil = Permᴰ.cons refl Permᴰ.nil
append-Perm n (Permᴰ.cons e p) = Permᴰ.cons e (append-Perm n p)
append-Perm n (Permᴰ.swap e f) = Permᴰ.swap e f
append-Perm n (Permᴰ.trans p q) = Permᴰ.trans (append-Perm n p) (append-Perm n q)

All-append :
    (P : NodeEntry → Type 0) (ns : List NodeEntry) (n : NodeEntry)
    → All P ns
    → P n
    → All P (ns ++ n ∷ [])
All-append P [] n h k = (k, tt)
All-append P (m ∷ ns) n h k = (h.0, All-append P ns n h.1 k)

-- A node whose ID is not there may be added.
pub Distinct-append :
    (ns : List NodeEntry) (n : NodeEntry)
    → has_node ns n.node_id ≡ false
    → Distinct ns
    → Distinct (ns ++ n ∷ [])
Distinct-append [] n absent h = (tt, tt)
Distinct-append (m ∷ ns) n absent h = (
  All-append (λ (k : NodeEntry). m.node_id ≢ k.node_id) ns n h.0 (ground (arith, absent)),
  Distinct-append ns n (ground (arith, absent)) h.1,
)
