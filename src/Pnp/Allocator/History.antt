-- ===== src/Pnp/Allocator/History.antt =====
-- src/pnp/allocator.rs: any sequence of calls, by an environment that chooses them, and what each
-- call does to the table.
use cyphal_service.Common.{
  ℕ, ◌≡◌, refl, sym, ap, ◌∙◌, subst, inl, inr, Option, none, some, List, [], ◌∷◌, arith, Text,
}
use cyphal_service.Common.Int.{as_i64}
use cyphal_service.Pnp.Hex.{bytes_to_hex}
use cyphal_service.Pnp.Sqlite.{
  Sqlite, IsSqlite, IsReadable, Table, inserted, inserted_if_absent, updated,
}
use cyphal_service.Pnp.Db
use cyphal_service.Pnp.Db.{v1_row, v2_row, static_row}
use cyphal_service.Pnp.Db.Writes.{record_static_node-table, update_unique_id-table}
use cyphal_service.Pnp.Allocator.{
  AllocationDataV1, AllocationDataV2, PnpAllocator, on_allocation_v1, on_allocation_v2,
  on_heartbeat, pop_get_info_request, on_get_info_result,
}
use cyphal_service.Pnp.Allocator.Outcome.{
  refused, reused, allocated, Unclaimed, on_allocation_v1-Outcome, on_allocation_v2-Outcome,
}
use cyphal_service.Pnp.Allocator.Rows.{
  Keeps, Keeps-eq, Keeps-trans, Keeps-inserted, Keeps-inserted_if_absent, Keeps-updated, SameClaim,
}

pub data Call : Type 0 where
  asks_v1 : AllocationDataV1 → Option ℕ → Call
  asks_v2 : AllocationDataV2 → Option ℕ → Call
  beats : ℕ → ℕ → ℕ → Call
  pops : Call
  resolves : ℕ → Option (List ℕ) → Call

-- What a call does to the table.
pub data Effect (sq : Sqlite) (laws : IsSqlite sq) (call : Call) (t t' : Table) : Type 0 where
  unchanged : t' ≡ t → Effect sq laws call t t'
  inserts_v1 :
      (msg : AllocationDataV1) (source : Option ℕ) (i : ℕ) (ts : Option Text)
      → call ≡ asks_v1 msg source
      → t i ≡ none
      → (IsReadable sq → Unclaimed (λ r. r.pseudo_unique_id ≡ some (as_i64 msg.unique_id_hash)) t)
      → t' ≡ inserted (v1_row i msg.unique_id_hash) ts t
      → Effect sq laws call t t'
  inserts_v2 :
      (msg : AllocationDataV2) (source : Option ℕ) (i : ℕ) (ts : Option Text)
      → call ≡ asks_v2 msg source
      → t i ≡ none
      → (IsReadable sq → Unclaimed (λ r. r.unique_id_hex ≡ some (bytes_to_hex msg.unique_id)) t)
      → t' ≡ inserted (v2_row i msg.unique_id) ts t
      → Effect sq laws call t t'
  reserves :
      (i : ℕ) (ts : Option Text)
      → t' ≡ inserted_if_absent (static_row i) ts t
      → Effect sq laws call t t'
  rewrites :
      (i : ℕ) (uid : List ℕ)
      → call ≡ resolves i (some uid)
      → t' ≡ updated (bytes_to_hex uid) i t
      → Effect sq laws call t t'

module _ (sq : Sqlite) where
  unfoldable pub step : Call → PnpAllocator sq.Conn → PnpAllocator sq.Conn
  step (asks_v1 msg source) a = (on_allocation_v1 sq a msg source).1
  step (asks_v2 msg source) a = (on_allocation_v2 sq a msg source).1
  step (beats node_id elapsed_at now) a = on_heartbeat sq a node_id elapsed_at now
  step pops a = (pop_get_info_request sq a).1
  step (resolves node_id uid) a = on_get_info_result sq a node_id uid

  unfoldable pub run : List Call → PnpAllocator sq.Conn → PnpAllocator sq.Conn
  unfolding step
  run [] a = a
  run (call ∷ calls) a = run calls (step call a)

  pub on_heartbeat-db :
      (a : PnpAllocator sq.Conn) (i s now : ℕ)
      → (on_heartbeat sq a i s now).db ≡ (Db.record_static_node sq a.db i).1
  unfolding on_heartbeat
  on_heartbeat-db a i s now = ground arith

  pub pop-db : (a : PnpAllocator sq.Conn) → (pop_get_info_request sq a).1.db ≡ a.db
  unfolding pop_get_info_request
  pop-db a = ground arith

  module _ (laws : IsSqlite sq) where
    open laws use {table}

    pub step-Effect :
        (call : Call) (a : PnpAllocator sq.Conn)
        → Effect sq laws call (table a.db) (table (step call a).db)
    unfolding step on_get_info_result
    step-Effect (asks_v1 msg source) a = elim (on_allocation_v1-Outcome sq laws a msg source) [
      | refused _ e ↦ unchanged e
      | reused r _ _ _ e ↦ unchanged (ap (λ (b : PnpAllocator sq.Conn). table b.db) e)
      | allocated i ts _ _ _ _ free fresh e ↦ inserts_v1 msg source i ts refl free fresh e
    ]
    step-Effect (asks_v2 msg source) a = elim (on_allocation_v2-Outcome sq laws a msg source) [
      | refused _ e ↦ unchanged e
      | reused r _ _ _ e ↦ unchanged (ap (λ (b : PnpAllocator sq.Conn). table b.db) e)
      | allocated i ts _ _ _ _ free fresh e ↦ inserts_v2 msg source i ts refl free fresh e
    ]
    step-Effect (beats i s now) a = elim (record_static_node-table sq laws a.db i) [
      | inl (_, e) ↦ reserves i (laws.stamp a.db) (ap table (on_heartbeat-db a i s now) ∙ e)
      | inr (_, _, e) ↦ unchanged (ap table (on_heartbeat-db a i s now) ∙ e)
    ]
    step-Effect pops a = unchanged (ap table (pop-db a))
    step-Effect (resolves i none) a = unchanged refl
    step-Effect (resolves i (some uid)) a = elim (update_unique_id-table sq laws a.db i uid) [
      | inl (_, e) ↦ rewrites i uid refl e
      | inr (_, _, e) ↦ unchanged e
    ]

    Effect-Keeps : (call : Call) (t t' : Table) → Effect sq laws call t t' → Keeps SameClaim t t'
    Effect-Keeps call t t' (unchanged e) = Keeps-eq t t' e
    Effect-Keeps call t t' (inserts_v1 msg _ i ts _ free _ e) =
        subst (Keeps SameClaim t) (sym e) (Keeps-inserted (v1_row i msg.unique_id_hash) ts t free)
    Effect-Keeps call t t' (inserts_v2 msg _ i ts _ free _ e) =
        subst (Keeps SameClaim t) (sym e) (Keeps-inserted (v2_row i msg.unique_id) ts t free)
    Effect-Keeps call t t' (reserves i ts e) =
        subst (Keeps SameClaim t) (sym e) (Keeps-inserted_if_absent (static_row i) ts t)
    Effect-Keeps call t t' (rewrites i uid _ e) =
        subst (Keeps SameClaim t) (sym e) (Keeps-updated (bytes_to_hex uid) i t)

    -- No sequence of calls drops a row of the table, or changes a row's node ID, v1 hash or time.
    pub run-Keeps :
        (calls : List Call) (a : PnpAllocator sq.Conn)
        → Keeps SameClaim (table a.db) (table (run calls a).db)
    unfolding run
    run-Keeps [] a = Keeps-eq (table a.db) (table a.db) refl
    run-Keeps (call ∷ calls) a =
        Keeps-trans (table a.db) (table (step call a).db) (table (run calls (step call a)).db)
          (Effect-Keeps call _ _ (step-Effect call a)) (run-Keeps calls (step call a))
