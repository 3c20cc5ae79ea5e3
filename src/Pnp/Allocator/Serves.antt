-- ===== src/Pnp/Allocator/Serves.antt =====
-- src/pnp/allocator.rs: requests that are bound to be answered.
use cyphal_service.Common.{
  ℕ, ◌≤◌, ◌≡◌, refl, ◌⊎◌, inl, inr, ◌≢◌, none, some, [], ◌∷◌, arith, Option-cases, Text, Result, ok,
  err,
}
use cyphal_service.Pnp.Sqlite.{Row, Sqlite, IsSqlite, IsReliable, reads}
use cyphal_service.Pnp.Db.{as_u16, contains}
use cyphal_service.Pnp.Db
use cyphal_service.Common.Int.{as_i64}
use cyphal_service.Pnp.Hex.{bytes_to_hex}
use cyphal_service.Pnp.Db.Find.{find_by_unique_id-some, find_by_hash-some}
use cyphal_service.Pnp.Db.Search.{
  next_free_id-free, next_free_id-exhausted, ne-contains_one, contains-one,
}
use cyphal_service.Pnp.Db.Writes.{insert_v1-reliable, insert_v2-reliable}
use cyphal_service.Pnp.Allocator.{
  AllocationDataV1, AllocationDataV2, PnpAllocator, granted, next_free, answer_v1, answer_v2,
  on_allocation_v1, allocate_v1, on_allocation_v2,
}

module _ (sq : Sqlite) (laws : IsSqlite sq) (a : PnpAllocator sq.Conn) where
  -- An ID that could be given out.
  abbrev pub IsAvailable : ℕ → Type 0
  IsAvailable i = (1 ≤ i) × (i ≤ a.max_node_id) × (i ≢ a.local_node_id) × (laws.table a.db i ≡ none)

  -- The ID of a row that a requester holds, or one that could be given out.
  abbrev pub IsEligible : (Row → Type 0) → ℕ → Type 0
  IsEligible Holds j =
      ((r : Row) × (j ≡ as_u16 r.node_id) × (laws.table a.db r.node_id ≡ some r) × Holds r)
      ⊎ IsAvailable j

  IsAvailable-next_free :
      IsReliable sq laws
      → (i : ℕ) → IsAvailable i
      → (j : ℕ) × (next_free sq a ≡ some j) × IsAvailable j
  IsAvailable-next_free reliable i (low, high, other, empty) =
      elim (Option-cases (next_free sq a)) [
        | inl full ↦
            let (r, taken) =
              next_free_id-exhausted sq laws (reads reliable) a.db _ a.max_node_id full i low high
                (ne-contains_one i a.local_node_id other) in
            absurd (ground arith)
        | inr (j, found) ↦
            let (above, below, open_, free) =
              next_free_id-free sq laws a.db _ a.max_node_id j found in
            (j, found, (above, below, contains-one j a.local_node_id open_, free))
      ]

  granted-ok {ℓ} :
      {A : Type ℓ} (answer : A) (w : Result (Unit {0}) Text × sq.Conn)
      → w.0 ≡ ok tt
      → (granted sq a answer w).0 ≡ some answer
  granted-ok answer (ok u, db') e = refl
  granted-ok answer (err x, db') e = cc

  -- On a reliable engine, while some ID from 1 to the maximum is neither the local one nor in a
  -- row, an anonymous v2 request is answered: with its unique ID and one node ID, which is that of
  -- a row with the unique ID, cut to 16 bits, or from 1 to the maximum, not the local one and
  -- without a row.
  pub on_allocation_v2-serves :
      IsReliable sq laws
      → (msg : AllocationDataV2) (i : ℕ) → IsAvailable i
      → (j : ℕ) × ((on_allocation_v2 sq a msg none).0
          ≡ some (record { node_id = j; unique_id = msg.unique_id }))
        × IsEligible (λ r. r.unique_id_hex ≡ some (bytes_to_hex msg.unique_id)) j
  unfolding on_allocation_v2
  on_allocation_v2-serves reliable msg i free =
      elim (Option-cases (Db.find_by_unique_id sq a.db msg.unique_id)) [
        | inr (j, e) ↦ (
          j,
          rw (e, on_allocation_v2) refl,
          inl (find_by_unique_id-some sq laws a.db msg.unique_id j e),
        )
        | inl e ↦
            let (j, found, available) = IsAvailable-next_free reliable i free in
            (
              j,
              rw (e, found, on_allocation_v2)
                  (granted-ok (answer_v2 sq msg j) _
                    (insert_v2-reliable sq laws a.db reliable j msg.unique_id available.3)),
              inr available,
            )
      ]

  -- On a reliable engine, while some ID from 1 to the maximum is neither the local one nor in a
  -- row, an anonymous v1 request, one that names no node ID, is answered: with its hash and one
  -- node ID, which is that of a row with the hash, cut to 16 bits, or from 1 to the maximum, not
  -- the local one and without a row.
  pub on_allocation_v1-serves :
      IsReliable sq laws
      → (msg : AllocationDataV1) (i : ℕ) → msg.allocated_node_id ≡ []
      → IsAvailable i
      → (j : ℕ) × ((on_allocation_v1 sq a msg none).0
          ≡ some (record { unique_id_hash = msg.unique_id_hash; allocated_node_id = j ∷ [] }))
        × IsEligible (λ r. r.pseudo_unique_id ≡ some (as_i64 msg.unique_id_hash)) j
  unfolding on_allocation_v1 allocate_v1
  on_allocation_v1-serves reliable msg i request free =
      elim (Option-cases (Db.find_by_hash sq a.db msg.unique_id_hash)) [
        | inr (j, e) ↦ (
          j,
          rw (request, e, on_allocation_v1, allocate_v1) refl,
          inl (find_by_hash-some sq laws a.db msg.unique_id_hash j e),
        )
        | inl e ↦
            let (j, found, available) = IsAvailable-next_free reliable i free in
            (
              j,
              rw (request, e, found, on_allocation_v1, allocate_v1)
                  (granted-ok (answer_v1 sq msg j) _
                    (insert_v1-reliable sq laws a.db reliable j msg.unique_id_hash available.3)),
              inr available,
            )
      ]
