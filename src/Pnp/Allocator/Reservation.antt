-- ===== src/Pnp/Allocator/Reservation.antt =====
-- src/pnp/allocator.rs: node IDs that are in use are not given out, and the one case where they are.
use cyphal_service.Common.{
  ℕ, ◌<◌, ◌^◌, ◌≡◌, ap, subst, inl, inr, ◌≢◌, Option, none, some, List, arith, replicate,
  Option-cases,
}
use cyphal_service.Pnp.Hex.{bytes_to_hex-zeros}
use cyphal_service.Pnp.Sqlite.{
  Row, Sqlite, IsSqlite, IsReliable, reads, Table, stamped, inserted_if_absent,
}
use cyphal_service.Pnp.Db
use cyphal_service.Pnp.Db.{static_row, as_u16, zero_hex}
use cyphal_service.Pnp.Db.Search.{next_free_id-free}
use cyphal_service.Pnp.Db.Writes.{record_static_node-reliable}
use cyphal_service.Pnp.Db.Find.{find_by_unique_id-some, find_by_unique_id-found}
use cyphal_service.Pnp.Allocator.{PnpAllocator, new, on_heartbeat, on_allocation_v2}
use cyphal_service.Pnp.Allocator.Outcome.{v2_id}
use cyphal_service.Pnp.Allocator.History.{Call, run, run-Keeps, on_heartbeat-db}

-- The row that a static node has or gets.
static_present :
    (i : ℕ) (ts : Option (List ℕ)) (t : Table)
    → (r : Row) × (inserted_if_absent (static_row i) ts t i ≡ some r)
static_present i ts t = elim (Option-cases (t i)) [
  | inl empty ↦ (stamped (static_row i) ts, ground arith)
  | inr (r, at) ↦ (r, ground arith)
]

module _ (sq : Sqlite) (laws : IsSqlite sq) (reliable : IsReliable sq laws) where
  open laws use {table, stamp}

  heartbeat_present :
      (a : PnpAllocator sq.Conn) (i s now : ℕ)
      → (r : Row) × (table (on_heartbeat sq a i s now).db i ≡ some r)
  heartbeat_present a i s now =
      let (r, at) = static_present i (stamp a.db) (table a.db) in
      (r, rw (on_heartbeat-db sq a i s now, record_static_node-reliable sq laws a.db reliable i) at)

  -- On a reliable engine, once a node has been heard by its heartbeat, its ID is never again found
  -- free, whatever calls follow.
  pub heartbeat_reserves :
      (a : PnpAllocator sq.Conn) (i s now : ℕ) (calls : List Call) (reserved : List ℕ) (max_id : ℕ)
      → Db.next_free_id sq (run sq calls (on_heartbeat sq a i s now)).db reserved max_id ≢ some i
  heartbeat_reserves a i s now calls reserved max_id h =
      let a' = on_heartbeat sq a i s now in
      let (r, at) = heartbeat_present a i s now in
      let (r', at', _) = run-Keeps sq laws calls a' i r at in
      let free = next_free_id-free sq laws (run sq calls a').db reserved max_id i h in cc (free.3)

  -- The table of a new allocator over an empty one: the local node's static row.
  new-table :
      (db : sq.Conn) (local max_id : ℕ)
      → table db ≡ (λ i. none)
      → table (new sq db local max_id).db
        ≡ inserted_if_absent (static_row local) (stamp db) (λ i. none)
  unfolding new
  new-table db local max_id empty =
      rw (record_static_node-reliable sq laws db reliable local, empty)

  sole_row :
      (i j : ℕ) (ts : Option (List ℕ)) (r : Row)
      → inserted_if_absent (static_row i) ts (λ k. none) j ≡ some r
      → r.node_id ≡ i
  sole_row i j ts r h = ground arith

  -- The text of a static row is that of sixteen zero bytes, so a v2 request with that unique ID is
  -- taken for the static node's: on a reliable engine a new allocator over an empty table, with a
  -- 16-bit node ID of its own, answers an anonymous one with its own node ID, the one that is never
  -- to be assigned.
  pub zero_uid_gets_local :
      (db : sq.Conn) (local max_id node_id : ℕ)
      → local < 2 ^ 16
      → table db ≡ (λ i. none)
      → v2_id
          (on_allocation_v2 sq
            (new sq db local max_id)
            (record { node_id = node_id; unique_id = replicate 16 0 })
            none).0
        ≡ some local
  unfolding on_allocation_v2
  zero_uid_gets_local db local max_id node_id small empty =
      let a = new sq db local max_id in
      let full = new-table db local max_id empty in
      let row = stamped (static_row local) (stamp db) in
      let at : table a.db local ≡ some row = rw full (ground arith) in
      let (j, found) =
        find_by_unique_id-found sq laws a.db (reads reliable) (replicate 16 0) local row at
          (ap (λ h. some h) bytes_to_hex-zeros) in
      let (r, same, at', _) = find_by_unique_id-some sq laws a.db (replicate 16 0) j found in
      let e : r.node_id ≡ local =
        sole_row local r.node_id (stamp db) r
          (subst (λ (t : Table). t r.node_id ≡ some r) full at') in
      let e' : j ≡ local = omega arith in rw (found, on_allocation_v2) (ap (λ n. some n) e')
