-- ===== src/Pnp/Allocator/HashStability.antt =====
-- src/pnp/allocator.rs: a node that asks again is given the same ID.
use cyphal_service.Common.{
  ℕ, ◌<◌, ◌^◌, ◌≡◌, refl, sym, ap, ◌∙◌, subst, none, some, List, [], ◌∷◌, arith,
}
use cyphal_service.Common.Int.{as_i64}
use cyphal_service.Pnp.Hex.{bytes_to_hex}
use cyphal_service.Pnp.Sqlite.{Row, Sqlite, IsSqlite, IsReliable, reads, Table}
use cyphal_service.Pnp.Db.{v1_row, v2_row, static_row}
use cyphal_service.Pnp.Db.Find.{find_by_hash-some, find_by_hash-found}
use cyphal_service.Pnp.Allocator.{AllocationDataV1, PnpAllocator, on_allocation_v1, allocate_v1}
use cyphal_service.Pnp.Allocator.Outcome.{
  Outcome, refused, reused, allocated, Unclaimed, v1_id, on_allocation_v1-Outcome,
}
use cyphal_service.Pnp.Allocator.History.{
  Call, Effect, unchanged, inserts_v1, inserts_v2, reserves, rewrites, step, run, step-Effect,
}
use cyphal_service.Pnp.Allocator.Rows.{
  Sole, Sole-inserted, Sole-inserted_if_absent, Sole-updated, inserted-Sole,
}

-- The row carries the v1 hash.
abbrev pub HasHash : ℕ → Row → Type 0
HasHash hash r = r.pseudo_unique_id ≡ some (as_i64 hash)

module _ (sq : Sqlite) (laws : IsSqlite sq) (reliable : IsReliable sq laws) where
  open laws use {table}

  module _ (hash : ℕ) where
    Effect-Sole_hash :
        (i : ℕ) (call : Call) (t t' : Table)
        → Sole (HasHash hash) i t
        → Effect sq laws call t t'
        → Sole (HasHash hash) i t'
    Effect-Sole_hash i call t t' s (unchanged e) = subst (Sole (HasHash hash) i) (sym e) s
    Effect-Sole_hash i call t t' s (inserts_v1 msg _ k ts _ free fresh e) =
        subst (Sole (HasHash hash) i) (sym e) (
          Sole-inserted (HasHash hash) i t s (v1_row k msg.unique_id_hash) ts free
            (λ same. fresh (reads reliable) i s.row s.at (s.holds ∙ sym same)))
    Effect-Sole_hash i call t t' s (inserts_v2 msg _ k ts _ free _ e) =
        subst (Sole (HasHash hash) i) (sym e)
          (Sole-inserted (HasHash hash) i t s (v2_row k msg.unique_id) ts free (λ same. cc))
    Effect-Sole_hash i call t t' s (reserves k ts e) =
        subst (Sole (HasHash hash) i) (sym e)
          (Sole-inserted_if_absent (HasHash hash) i t s (static_row k) ts (λ same. cc))
    Effect-Sole_hash i call t t' s (rewrites k uid _ e) =
        subst (Sole (HasHash hash) i) (sym e)
          (Sole-updated (HasHash hash) i t s (bytes_to_hex uid) k (λ r h. h) (λ r h. h))

    pub run-Sole_hash :
        (i : ℕ) (calls : List Call) (a : PnpAllocator sq.Conn)
        → Sole (HasHash hash) i (table a.db)
        → Sole (HasHash hash) i (table (run sq calls a).db)
    unfolding run
    run-Sole_hash i [] a s = s
    run-Sole_hash i (call ∷ calls) a s =
        run-Sole_hash i calls (step sq call a)
          (Effect-Sole_hash i call _ _ s (step-Effect sq laws call a))

  Sole-answer_v1 :
      (a : PnpAllocator sq.Conn) (msg : AllocationDataV1) (i : ℕ)
      → msg.allocated_node_id ≡ []
      → i < 2 ^ 16
      → Sole (HasHash msg.unique_id_hash) i (table a.db)
      → v1_id (on_allocation_v1 sq a msg none).0 ≡ some i
  unfolding on_allocation_v1 allocate_v1
  Sole-answer_v1 a msg i request small s =
      let (j, found) =
        find_by_hash-found sq laws a.db (reads reliable) msg.unique_id_hash i s.row s.at s.holds in
      let (r, same, at, holds) = find_by_hash-some sq laws a.db msg.unique_id_hash j found in
      let e : r.node_id ≡ i = s.only r.node_id r at holds in
      let e' : j ≡ i = omega arith in
      rw (request, found, on_allocation_v1, allocate_v1) (ap (λ n. some n) e')

  pub allocated-Sole_hash :
      (a a' : PnpAllocator sq.Conn) (hash i : ℕ)
      → a.max_node_id < 2 ^ 16
      → Unclaimed (HasHash hash) (table a.db)
      → Outcome sq laws (λ k. v1_row k hash) (HasHash hash) a (some i) a'
      → Sole (HasHash hash) i (table a'.db) × (i < 2 ^ 16)
  allocated-Sole_hash a a' hash i small new (refused e _) = absurd (cc)
  allocated-Sole_hash a a' hash i small new (reused r _ at holds _) =
      absurd (new r.node_id r at holds)
  allocated-Sole_hash a a' hash i small new (allocated k ts e low high _ free _ after) =
      let e' : k ≡ i = ground arith in
      (
        subst (λ n. Sole (HasHash hash) n (table a'.db)) e'
            (rw after (inserted-Sole (HasHash hash) (v1_row k hash) ts (table a.db) new refl)),
        omega arith,
      )

  -- On a reliable engine, with a maximum below 2 ^ 16: once an anonymous request, which names no
  -- node ID, with a hash that no row carried has been answered with an ID, any later such request
  -- with that hash is answered with the same ID, whatever calls come between.
  pub v1_stable :
      (a : PnpAllocator sq.Conn) (msg : AllocationDataV1) (i : ℕ) (calls : List Call)
      → a.max_node_id < 2 ^ 16
      → msg.allocated_node_id ≡ []
      → Unclaimed (HasHash msg.unique_id_hash) (table a.db)
      → v1_id (on_allocation_v1 sq a msg none).0 ≡ some i
      → v1_id (on_allocation_v1 sq (run sq calls (on_allocation_v1 sq a msg none).1) msg none).0
        ≡ some i
  v1_stable a msg i calls small request new answered =
      let first = on_allocation_v1 sq a msg none in
      let (sole, below) = allocated-Sole_hash a first.1 msg.unique_id_hash i small new (
        subst
          (λ o.
            Outcome sq laws (λ k. v1_row k msg.unique_id_hash) (HasHash msg.unique_id_hash) a o
              first.1)
          answered (on_allocation_v1-Outcome sq laws a msg none)) in
      Sole-answer_v1 (run sq calls first.1) msg i request below
        (run-Sole_hash msg.unique_id_hash i calls first.1 sole)
