-- ===== src/Pnp/Allocator/Distinct.antt =====
-- src/pnp/allocator.rs: two nodes are not given the same ID.
use cyphal_service.Common.{
  ℕ, ◌<◌, ◌^◌, ◌≡◌, sym, ◌∙◌, subst, ◌≢◌, none, some, List, ◌∷◌, arith, All,
}
use cyphal_service.Common.Int.{as_i64, as_u64, as_u64-as_i64}
use cyphal_service.Pnp.Hex.{IsByte, bytes_to_hex, bytes_to_hex_injective}
use cyphal_service.Pnp.Sqlite.{Row, NewRow, Sqlite, IsSqlite, IsReliable}
use cyphal_service.Pnp.Db.{v1_row, v2_row}
use cyphal_service.Pnp.Allocator.{
  AllocationDataV1, AllocationDataV2, PnpAllocator, on_allocation_v1, on_allocation_v2,
}
use cyphal_service.Pnp.Allocator.Outcome.{
  Outcome, refused, reused, allocated, Unclaimed, v1_id, v2_id, on_allocation_v1-Outcome,
  on_allocation_v2-Outcome,
}
use cyphal_service.Pnp.Allocator.History.{Call, asks_v1, asks_v2, step, run}
use cyphal_service.Pnp.Allocator.Rows.{Sole}
use cyphal_service.Pnp.Allocator.NodeIds.{IsNarrow, IsNarrowCall, run-IsNarrow}
use cyphal_service.Pnp.Allocator.HashStability.{HasHash, allocated-Sole_hash, run-Sole_hash}
use cyphal_service.Pnp.Allocator.UniqueIdStability.{
  HasUid, IsReal, IsQuiet, allocated-Sole_uid, run-Sole_uid,
}

module _ (sq : Sqlite) (laws : IsSqlite sq) where
  open laws use {table}

  -- The ID of one requester's row is not the answer to a requester that cannot share the row.
  Sole-ne :
      (P Holds : Row → Type 0) (new : ℕ → NewRow) (i j : ℕ) (a a' : PnpAllocator sq.Conn)
      → ((r : Row) → P r → ¬ Holds r)
      → IsNarrow (table a.db)
      → Sole P i (table a.db)
      → Outcome sq laws new Holds a (some j) a'
      → j ≢ i
  Sole-ne P Holds new i j a a' apart narrow s (refused e _) same = absurd (cc)
  Sole-ne P Holds new i j a a' apart narrow s (reused r e at holds _) same =
      let below = narrow r.node_id r at in
      let here : r.node_id ≡ i = ground arith in
      let at' : table a.db i ≡ some r = subst (λ k. table a.db k ≡ some r) here at in
      let same_row : s.row ≡ r = cc in apart r (subst P same_row s.holds) holds
  Sole-ne P Holds new i j a a' apart narrow s (allocated k ts e _ _ _ empty _ _) same =
      let here : k ≡ i = ground arith in
      let at : table a.db k ≡ some s.row = subst (λ n. table a.db n ≡ some s.row) (sym here) s.at in
      absurd (cc)

  hash_apart : (x y : ℕ) → x < 2 ^ 64 → y < 2 ^ 64 → x ≢ y → (r : Row) → HasHash x r → ¬ HasHash y r
  hash_apart x y hx hy ne r p q =
      let same : as_u64 (as_i64 x) ≡ as_u64 (as_i64 y) = cc in
      ne (sym (as_u64-as_i64 x hx) ∙ same ∙ as_u64-as_i64 y hy)

  uid_apart :
      (x y : List ℕ) → All IsByte x → All IsByte y → x ≢ y → (r : Row) → HasUid x r → ¬ HasUid y r
  uid_apart x y bx by_ ne r p q =
      let same : bytes_to_hex x ≡ bytes_to_hex y = cc in ne (bytes_to_hex_injective x y bx by_ same)

  answered_v1 :
      (a : PnpAllocator sq.Conn) (msg : AllocationDataV1) (i : ℕ)
      → v1_id (on_allocation_v1 sq a msg none).0 ≡ some i
      → Outcome sq laws
          (λ k. v1_row k msg.unique_id_hash)
          (HasHash msg.unique_id_hash)
          a
          (some i)
          (on_allocation_v1 sq a msg none).1
  answered_v1 a msg i e =
      subst
        (λ o.
          Outcome sq laws (λ k. v1_row k msg.unique_id_hash) (HasHash msg.unique_id_hash) a o
            (on_allocation_v1 sq a msg none).1)
        e (on_allocation_v1-Outcome sq laws a msg none)

  answered_v2 :
      (a : PnpAllocator sq.Conn) (msg : AllocationDataV2) (i : ℕ)
      → v2_id (on_allocation_v2 sq a msg none).0 ≡ some i
      → Outcome sq laws
          (λ k. v2_row k msg.unique_id)
          (HasUid msg.unique_id)
          a
          (some i)
          (on_allocation_v2 sq a msg none).1
  answered_v2 a msg i e =
      subst
        (λ o.
          Outcome sq laws (λ k. v2_row k msg.unique_id) (HasUid msg.unique_id) a o
            (on_allocation_v2 sq a msg none).1)
        e (on_allocation_v2-Outcome sq laws a msg none)

  module _ (reliable : IsReliable sq laws) where
    -- On a reliable engine whose table holds 16-bit node IDs, with a maximum below 2 ^ 16: once an
    -- anonymous v1 request with a 64-bit hash that no row carried has been answered, no anonymous
    -- request with another such hash is answered with the same ID, whatever calls come between
    -- (heartbeats having 16-bit sources).
    pub v1_distinct :
        (a : PnpAllocator sq.Conn) (msg other : AllocationDataV1) (i j : ℕ) (calls : List Call)
        → a.max_node_id < 2 ^ 16
        → IsNarrow (table a.db)
        → All IsNarrowCall calls
        → msg.unique_id_hash < 2 ^ 64
        → other.unique_id_hash < 2 ^ 64
        → msg.unique_id_hash ≢ other.unique_id_hash
        → Unclaimed (HasHash msg.unique_id_hash) (table a.db)
        → v1_id (on_allocation_v1 sq a msg none).0 ≡ some i
        → v1_id (on_allocation_v1 sq (run sq calls (on_allocation_v1 sq a msg none).1) other none).0
          ≡ some j
        → j ≢ i
    unfolding run step
    v1_distinct a msg other i j calls small narrow named hm ho ne new answered later =
        let first = on_allocation_v1 sq a msg none in
        let b = run sq calls first.1 in
        let (sole, below) =
          allocated-Sole_hash sq laws reliable a first.1 msg.unique_id_hash i small new
            (answered_v1 a msg i answered) in
        let narrow' = run-IsNarrow sq laws (asks_v1 msg none ∷ calls) a (tt, named) small narrow in
        Sole-ne (HasHash msg.unique_id_hash) (HasHash other.unique_id_hash)
          (λ k. v1_row k other.unique_id_hash) i j b (on_allocation_v1 sq b other none).1
          (hash_apart msg.unique_id_hash other.unique_id_hash hm ho ne) narrow'
          (run-Sole_hash sq laws reliable msg.unique_id_hash i calls first.1 sole)
          (answered_v1 b other j later)

    -- On a reliable engine whose table holds 16-bit node IDs, with a maximum below 2 ^ 16: once an
    -- anonymous v2 request with a unique ID that is no placeholder and that no row carried has been
    -- answered, no anonymous request with another unique ID, of bytes, is answered with the same
    -- ID, whatever calls come between (heartbeats having 16-bit sources), as long as GetInfo brings
    -- no unique ID for that node ID, nor this unique ID for another.
    pub v2_distinct :
        (a : PnpAllocator sq.Conn) (msg other : AllocationDataV2) (i j : ℕ) (calls : List Call)
        → a.max_node_id < 2 ^ 16
        → IsNarrow (table a.db)
        → All IsNarrowCall calls
        → IsReal msg.unique_id
        → All IsByte other.unique_id
        → msg.unique_id ≢ other.unique_id
        → Unclaimed (HasUid msg.unique_id) (table a.db)
        → All (IsQuiet msg.unique_id i) calls
        → v2_id (on_allocation_v2 sq a msg none).0 ≡ some i
        → v2_id (on_allocation_v2 sq (run sq calls (on_allocation_v2 sq a msg none).1) other none).0
          ≡ some j
        → j ≢ i
    unfolding run step
    v2_distinct a msg other i j calls small narrow named real bytes ne new quiet answered later =
        let first = on_allocation_v2 sq a msg none in
        let b = run sq calls first.1 in
        let (sole, below) =
          allocated-Sole_uid sq laws reliable a first.1 msg.unique_id i small new
            (answered_v2 a msg i answered) in
        let narrow' = run-IsNarrow sq laws (asks_v2 msg none ∷ calls) a (tt, named) small narrow in
        Sole-ne (HasUid msg.unique_id) (HasUid other.unique_id) (λ k. v2_row k other.unique_id) i j
          b (on_allocation_v2 sq b other none).1
          (uid_apart msg.unique_id other.unique_id real.bytes bytes ne) narrow'
          (run-Sole_uid sq laws reliable msg.unique_id real i calls first.1 quiet sole)
          (answered_v2 b other j later)
