-- ===== src/Pnp/Allocator/Outcome.antt =====
-- src/pnp/allocator.rs: what an allocation request can come to.
use cyphal_service.Common.{
  ℕ, ◌≤◌, ◌≡◌, refl, ap, inl, inr, ◌≢◌, Option, none, some, [], ◌∷◌, List-cases, Option-cases, Text,
  Result, ok, err,
}
use cyphal_service.Common.Int.{as_i64}
use cyphal_service.Pnp.Hex.{bytes_to_hex, pad_hash}
use cyphal_service.Pnp.Sqlite.{Row, NewRow, Sqlite, IsSqlite, IsReadable, Table, inserted}
use cyphal_service.Pnp.Db.{as_u16, contains, v1_row, v2_row}
use cyphal_service.Pnp.Db
use cyphal_service.Pnp.Db.Search.{next_free_id-free, contains-one}
use cyphal_service.Pnp.Db.Writes.{Inserts, insert_v1-table, insert_v2-table}
use cyphal_service.Pnp.Db.Find.{
  find_by_unique_id-some, find_by_hash-some, find_by_unique_id-found, find_by_hash-found,
}
use cyphal_service.Pnp.Allocator.{
  AllocationDataV1, AllocationDataV2, PnpAllocator, granted, next_free, answer_v1, answer_v2,
  on_allocation_v1, allocate_v1, on_allocation_v2,
}

abbrev pub Unclaimed : (Row → Type 0) → Table → Type 0
Unclaimed Holds t = (j : ℕ) (r : Row) → t j ≡ some r → ¬ Holds r

-- A request that is answered with `id`, or not answered, between two states. `new i` is the row
-- that it writes for the ID i, and `Holds r` says that the row r belongs to the requester.
pub data Outcome (sq : Sqlite) (laws : IsSqlite sq) (new : ℕ → NewRow) (Holds : Row → Type 0)
    (a : PnpAllocator sq.Conn) (id : Option ℕ) (a' : PnpAllocator sq.Conn) : Type 0 where
  -- No answer, and the table as it was.
  refused : id ≡ none → laws.table a'.db ≡ laws.table a.db → Outcome sq laws new Holds a id a'
  -- The ID of a row that is there, and the state as it was.
  reused :
      (r : Row)
      → id ≡ some (as_u16 r.node_id)
      → laws.table a.db r.node_id ≡ some r
      → Holds r
      → a' ≡ a
      → Outcome sq laws new Holds a id a'
  -- An ID from 1 to the maximum that is not the local one and had no row, under a new row. On an
  -- engine whose reads succeed, no row belonged to the requester.
  allocated :
      (i : ℕ) (ts : Option Text)
      → id ≡ some i
      → 1 ≤ i
      → i ≤ a.max_node_id
      → i ≢ a.local_node_id
      → laws.table a.db i ≡ none
      → (IsReadable sq → Unclaimed Holds (laws.table a.db))
      → laws.table a'.db ≡ inserted (new i) ts (laws.table a.db)
      → Outcome sq laws new Holds a id a'

abbrev pub v2_id : Option AllocationDataV2 → Option ℕ
v2_id none = none
v2_id (some m) = some m.node_id

-- The first node ID in the answer.
abbrev pub v1_id : Option AllocationDataV1 → Option ℕ
v1_id none = none
v1_id (some m) = elim m.allocated_node_id [ [] ↦ none | i ∷ rest ↦ some i ]

module _ (sq : Sqlite) (laws : IsSqlite sq) (a : PnpAllocator sq.Conn) where
  -- The ID that the search returns has what `allocated` asks for.
  next_free-allocated :
      (new : ℕ → NewRow) (Holds : Row → Type 0) (i : ℕ) (a' : PnpAllocator sq.Conn)
      → next_free sq a ≡ some i
      → (new i).node_id ≡ i
      → (IsReadable sq → Unclaimed Holds (laws.table a.db))
      → Inserts sq laws a.db (ok tt) (new i) (laws.table a'.db)
      → Outcome sq laws new Holds a (some i) a'
  next_free-allocated new Holds i a' found keyed fresh (inl (_, free, after)) =
      let (low, high, open_, empty) = next_free_id-free sq laws a.db _ a.max_node_id i found in
      allocated i (laws.stamp a.db) refl low high (contains-one i a.local_node_id open_) empty fresh
        after
  next_free-allocated new Holds i a' found keyed fresh (inr (e, failed, after)) = cc

  granted-Outcome {ℓ} :
      {A : Type ℓ} (id : Option A → Option ℕ) (new : ℕ → NewRow) (Holds : Row → Type 0) (i : ℕ)
      (answer : A) (r : Result (Unit {0}) Text) (db' : sq.Conn)
      → id none ≡ none
      → id (some answer) ≡ some i
      → next_free sq a ≡ some i
      → (new i).node_id ≡ i
      → (IsReadable sq → Unclaimed Holds (laws.table a.db))
      → Inserts sq laws a.db r (new i) (laws.table db')
      → Outcome sq laws new Holds a
          (id (granted sq a answer (r, db')).0)
          (granted sq a answer (r, db')).1
  granted-Outcome id new Holds i answer (ok u) db' absent present found keyed fresh w =
      rw present (next_free-allocated new Holds i _ found keyed fresh w)
  granted-Outcome id new Holds i answer (err e) db' absent present found keyed fresh
        (inl (failed, _, _)) =
      cc
  granted-Outcome id new Holds i answer (err e) db' absent present found keyed fresh
        (inr (_, _, after)) =
      refused absent after

  Unclaimed-hex :
      (msg : AllocationDataV2)
      → Db.find_by_unique_id sq a.db msg.unique_id ≡ none
      → IsReadable sq
      → Unclaimed (λ r. r.unique_id_hex ≡ some (bytes_to_hex msg.unique_id)) (laws.table a.db)
  Unclaimed-hex msg miss readable j r at holds =
      let (i, found) = find_by_unique_id-found sq laws a.db readable msg.unique_id j r at holds in
      cc

  Unclaimed-hash :
      (msg : AllocationDataV1)
      → Db.find_by_hash sq a.db msg.unique_id_hash ≡ none
      → IsReadable sq
      → Unclaimed (λ r. r.pseudo_unique_id ≡ some (as_i64 msg.unique_id_hash)) (laws.table a.db)
  Unclaimed-hash msg miss readable j r at holds =
      let (i, found) = find_by_hash-found sq laws a.db readable msg.unique_id_hash j r at holds in
      cc

  -- Every v2 message is refused, leaving the table alone, or answered: with the ID, cut to 16 bits,
  -- of a row with its unique ID, leaving the state alone, or with an ID that is newly allocated to
  -- it: from 1 to the maximum, not the local one, without a row before and then under a new row
  -- with the unique ID. On an engine whose reads succeed a new ID is allocated only when no row
  -- carried the unique ID.
  pub on_allocation_v2-Outcome :
      (msg : AllocationDataV2) (source : Option ℕ)
      → Outcome sq laws
          (λ i. record {
            node_id = i;
            unique_id_hex = bytes_to_hex msg.unique_id;
            pseudo_unique_id = none;
          })
          (λ r. r.unique_id_hex ≡ some (bytes_to_hex msg.unique_id))
          a
          (v2_id (on_allocation_v2 sq a msg source).0)
          (on_allocation_v2 sq a msg source).1
  unfolding on_allocation_v2
  on_allocation_v2-Outcome msg (some source) = refused refl refl
  on_allocation_v2-Outcome msg none =
      elim (Option-cases (Db.find_by_unique_id sq a.db msg.unique_id)) [
        | inr (i, e) ↦
            let (r, same, at, holds) = find_by_unique_id-some sq laws a.db msg.unique_id i e in
            rw (e, on_allocation_v2) (reused r (ap (λ n. some n) same) at holds refl)
        | inl e ↦ elim (Option-cases (next_free sq a)) [
          | inl full ↦ rw (e, full, on_allocation_v2) (refused refl refl)
          | inr (i, found) ↦
              rw (e, found, on_allocation_v2)
                (granted-Outcome v2_id _ _ i (answer_v2 sq msg i) _ _ refl refl found refl
                  (Unclaimed-hex msg e) (insert_v2-table sq laws a.db i msg.unique_id))
        ]
      ]

  allocate_v1-Outcome :
      (msg : AllocationDataV1)
      → Outcome sq laws
          (λ i. v1_row i msg.unique_id_hash)
          (λ r. r.pseudo_unique_id ≡ some (as_i64 msg.unique_id_hash))
          a
          (v1_id (allocate_v1 sq a msg).0)
          (allocate_v1 sq a msg).1
  unfolding allocate_v1
  allocate_v1-Outcome msg = elim (Option-cases (Db.find_by_hash sq a.db msg.unique_id_hash)) [
    | inr (i, e) ↦
        let (r, same, at, holds) = find_by_hash-some sq laws a.db msg.unique_id_hash i e in
        rw (e, allocate_v1) (reused r (ap (λ n. some n) same) at holds refl)
    | inl e ↦ elim (Option-cases (next_free sq a)) [
      | inl full ↦ rw (e, full, allocate_v1) (refused refl refl)
      | inr (i, found) ↦
          rw (e, found, allocate_v1)
            (granted-Outcome v1_id _ _ i (answer_v1 sq msg i) _ _ refl refl found refl
              (Unclaimed-hash msg e) (insert_v1-table sq laws a.db i msg.unique_id_hash))
    ]
  ]

  -- Every v1 message is refused, leaving the table alone, or answered: with the ID, cut to 16 bits,
  -- of a row with its hash, leaving the state alone, or with an ID that is newly allocated to it:
  -- from 1 to the maximum, not the local one, without a row before and then under a new row with
  -- the hash. On an engine whose reads succeed a new ID is allocated only when no row carried the
  -- hash.
  pub on_allocation_v1-Outcome :
      (msg : AllocationDataV1) (source : Option ℕ)
      → Outcome sq laws
          (λ i. record {
            node_id = i;
            unique_id_hex = bytes_to_hex (pad_hash msg.unique_id_hash);
            pseudo_unique_id = some (as_i64 msg.unique_id_hash);
          })
          (λ r. r.pseudo_unique_id ≡ some (as_i64 msg.unique_id_hash))
          a
          (v1_id (on_allocation_v1 sq a msg source).0)
          (on_allocation_v1 sq a msg source).1
  unfolding on_allocation_v1
  on_allocation_v1-Outcome msg (some source) = refused refl refl
  on_allocation_v1-Outcome msg none = elim (List-cases msg.allocated_node_id) [
    | inl e ↦ rw (e, on_allocation_v1) (allocate_v1-Outcome msg)
    | inr (i, rest, e) ↦ rw (e, on_allocation_v1) (refused refl refl)
  ]
