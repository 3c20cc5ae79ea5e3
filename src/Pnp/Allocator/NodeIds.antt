-- ===== src/Pnp/Allocator/NodeIds.antt =====
-- src/pnp/allocator.rs: the node IDs in the table stay within 16 bits, as long as the calls name
-- such IDs.
use cyphal_service.Common.{
  ℕ, ◌<◌, ◌^◌, ◌≡◌, refl, sym, ap, ◌∙◌, subst, inl, inr, Option, none, some, List, [], ◌∷◌, arith,
  Text, All, Bool-cases, Option-cases, ◌==◌,
}
use cyphal_service.Pnp.Hex.{bytes_to_hex}
use cyphal_service.Pnp.Sqlite.{
  Row, NewRow, Sqlite, IsSqlite, Table, inserted, inserted_if_absent, updated,
}
use cyphal_service.Pnp.Db.{static_row}
use cyphal_service.Pnp.Db.Writes.{record_static_node-table, update_unique_id-table}
use cyphal_service.Pnp.Allocator.{
  PnpAllocator, on_allocation_v1, allocate_v1, on_allocation_v2, on_heartbeat, pop_get_info_request,
  on_get_info_result,
}
use cyphal_service.Pnp.Allocator.Outcome.{
  Outcome, refused, reused, allocated, on_allocation_v1-Outcome, on_allocation_v2-Outcome,
}
use cyphal_service.Pnp.Allocator.History.{
  Call, asks_v1, asks_v2, beats, pops, resolves, step, run, on_heartbeat-db, pop-db,
}

-- Every row's ID is a `u16`.
abbrev pub IsNarrow : Table → Type 0
IsNarrow t = (k : ℕ) (r : Row) → t k ≡ some r → k < 2 ^ 16

-- The heartbeats are those of nodes with such IDs.
abbrev pub IsNarrowCall : Call → Type 0
IsNarrowCall (asks_v1 msg source) = Unit {0}
IsNarrowCall (asks_v2 msg source) = Unit {0}
IsNarrowCall (beats k s now) = k < 2 ^ 16
IsNarrowCall pops = Unit {0}
IsNarrowCall (resolves k uid) = Unit {0}

inserted-IsNarrow :
    (n : NewRow) (ts : Option Text) (t : Table)
    → n.node_id < 2 ^ 16
    → IsNarrow t
    → IsNarrow (inserted n ts t)
inserted-IsNarrow n ts t small narrow k r e = elim (Bool-cases (n.node_id == k)) [
  | inl here ↦ ground arith
  | inr there ↦ narrow k r (ground arith)
]

inserted_if_absent-IsNarrow :
    (n : NewRow) (ts : Option Text) (t : Table)
    → n.node_id < 2 ^ 16
    → IsNarrow t
    → IsNarrow (inserted_if_absent n ts t)
inserted_if_absent-IsNarrow n ts t small narrow k r e = elim (Option-cases (t k)) [
  | inl empty ↦ inserted-IsNarrow n ts t small narrow k r (ground arith)
  | inr (s, at) ↦ narrow k s at
]

updated-IsNarrow : (h : Text) (i : ℕ) (t : Table) → IsNarrow t → IsNarrow (updated h i t)
updated-IsNarrow h i t narrow k r e = elim (Option-cases (t k)) [
  | inl empty ↦ absurd (ground arith)
  | inr (s, at) ↦ narrow k s at
]

module _ (sq : Sqlite) where
  pub step-max_node_id :
      (call : Call) (a : PnpAllocator sq.Conn) → (step sq call a).max_node_id ≡ a.max_node_id
  unfolding step on_allocation_v1 allocate_v1 on_allocation_v2 on_heartbeat pop_get_info_request
      on_get_info_result
  step-max_node_id (asks_v1 msg source) a = ground arith
  step-max_node_id (asks_v2 msg none) a = ground arith
  step-max_node_id (asks_v2 msg (some s)) a = refl
  step-max_node_id (beats k s now) a = ground arith
  step-max_node_id pops a = ground arith
  step-max_node_id (resolves k none) a = refl
  step-max_node_id (resolves k (some uid)) a = refl

  module _ (laws : IsSqlite sq) where
    open laws use {table}

    pub Outcome-IsNarrow :
        (new : ℕ → NewRow) (Holds : Row → Type 0) (a a' : PnpAllocator sq.Conn) (id : Option ℕ)
        → ((i : ℕ) → (new i).node_id ≡ i)
        → a.max_node_id < 2 ^ 16
        → IsNarrow (table a.db)
        → Outcome sq laws new Holds a id a'
        → IsNarrow (table a'.db)
    Outcome-IsNarrow new Holds a a' id keyed small narrow (refused _ e) =
        subst IsNarrow (sym e) narrow
    Outcome-IsNarrow new Holds a a' id keyed small narrow (reused r _ _ _ e) =
        subst (λ (b : PnpAllocator sq.Conn). IsNarrow (table b.db)) (sym e) narrow
    Outcome-IsNarrow new Holds a a' id keyed small narrow (allocated i ts _ _ high _ _ _ e) =
        let below : (new i).node_id < 2 ^ 16 = omega (arith, keyed i) in
        subst IsNarrow (sym e) (inserted-IsNarrow (new i) ts (table a.db) below narrow)

    step-IsNarrow :
        (call : Call) (a : PnpAllocator sq.Conn)
        → IsNarrowCall call
        → a.max_node_id < 2 ^ 16
        → IsNarrow (table a.db)
        → IsNarrow (table (step sq call a).db)
    unfolding step on_get_info_result
    step-IsNarrow (asks_v1 msg source) a _ small narrow =
        Outcome-IsNarrow _ _ a _ _ (λ i. refl) small narrow
          (on_allocation_v1-Outcome sq laws a msg source)
    step-IsNarrow (asks_v2 msg source) a _ small narrow =
        Outcome-IsNarrow _ _ a _ _ (λ i. refl) small narrow
          (on_allocation_v2-Outcome sq laws a msg source)
    step-IsNarrow (beats i s now) a below small narrow =
        elim (record_static_node-table sq laws a.db i) [
          | inl (_, e) ↦ subst IsNarrow (sym (ap table (on_heartbeat-db sq a i s now) ∙ e)) (
              inserted_if_absent-IsNarrow (static_row i) (laws.stamp a.db) (table a.db) below
                narrow)
          | inr (_, _, e) ↦
              subst IsNarrow (sym (ap table (on_heartbeat-db sq a i s now) ∙ e)) narrow
        ]
    step-IsNarrow pops a _ small narrow = subst IsNarrow (sym (ap table (pop-db sq a))) narrow
    step-IsNarrow (resolves i none) a _ small narrow = narrow
    step-IsNarrow (resolves i (some uid)) a _ small narrow =
        elim (update_unique_id-table sq laws a.db i uid) [
          | inl (_, e) ↦
              subst IsNarrow (sym e) (updated-IsNarrow (bytes_to_hex uid) i (table a.db) narrow)
          | inr (_, _, e) ↦ subst IsNarrow (sym e) narrow
        ]

    -- From a table whose node IDs fit 16 bits, with a maximum that does, every sequence of calls
    -- whose heartbeats come from such IDs leads to another such table.
    pub run-IsNarrow :
        (calls : List Call) (a : PnpAllocator sq.Conn)
        → All IsNarrowCall calls
        → a.max_node_id < 2 ^ 16
        → IsNarrow (table a.db)
        → IsNarrow (table (run sq calls a).db)
    unfolding run
    run-IsNarrow [] a _ small narrow = narrow
    run-IsNarrow (call ∷ calls) a named small narrow =
        run-IsNarrow calls (step sq call a) named.1 (omega (arith, step-max_node_id call a))
          (step-IsNarrow call a named.0 small narrow)
