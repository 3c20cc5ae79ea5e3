-- ===== src/Pnp/Allocator/Placeholders.antt =====
-- src/pnp/allocator.rs and src/pnp/db.rs: which nodes are asked for their unique ID.
use cyphal_service.Common.{
  ℕ, ◌<◌, ◌^◌, ◌≡◌, sym, ◌∙◌, inl, inr, ◌≢◌, true, false, ◌&&◌, Option, some, List, [], ◌∷◌, ◌++◌,
  arith, if◌then◌else◌, Text, text_eq, text_eq_refl, eq_of_text_eq, Bool-cases, Option-cases,
}
use cyphal_service.Common.Int.{as_u64, as_u64-as_i64}
use cyphal_service.Common.Map
use cyphal_service.Pnp.Hex.{bytes_to_hex, pad_hash}
use cyphal_service.Pnp.Sqlite.{
  Row, Sqlite, IsSqlite, IsReliable, reads, stamped, with_hex, inserted_if_absent,
}
use cyphal_service.Pnp.Db
use cyphal_service.Pnp.Db.{needs_get_info, to_entry, v1_row, static_row, zero_hex}
use cyphal_service.Pnp.Db.Writes.{record_static_node-reliable, update_unique_id-reliable}
use cyphal_service.Pnp.Db.Find.{find_by_node_id-table}
use cyphal_service.Pnp.Allocator.{PnpAllocator, on_heartbeat, on_get_info_result, is_cooled}
use cyphal_service.Pnp.Allocator.UniqueIdStability.{IsReal, hash-ne-uid, zeros-ne-uid}

text_ne : (s t : Text) → s ≢ t → text_eq s t ≡ false
text_ne s t h = elim (Bool-cases (text_eq s t)) [
  | inl e ↦ absurd (h (eq_of_text_eq s t e))
  | inr e ↦ e
]

-- The rows that a v1 allocation and a static node write hold placeholders, and are queried.
pub v1_row-needs :
    (i hash : ℕ) (ts : Option Text)
    → hash < 2 ^ 64
    → needs_get_info (to_entry (stamped (v1_row i hash) ts)) ≡ true
unfolding needs_get_info
v1_row-needs i hash ts small =
    rw (as_u64-as_i64 hash small) (text_eq_refl (bytes_to_hex (pad_hash hash)))

-- A row with the text of a real unique ID is not.
pub real_row-needs :
    (uid : List ℕ) (r : Row)
    → IsReal uid
    → needs_get_info (to_entry (with_hex (bytes_to_hex uid) r)) ≡ false
unfolding needs_get_info
real_row-needs uid r real = elim (Option-cases r.pseudo_unique_id) [
  | inl e ↦
      rw (e, needs_get_info)
        (text_ne (bytes_to_hex uid) zero_hex (λ same. zeros-ne-uid uid real (sym same)))
  | inr (hash, e) ↦
      rw (e, needs_get_info)
        (text_ne (bytes_to_hex uid) (bytes_to_hex (pad_hash (as_u64 hash)))
          (λ same. hash-ne-uid uid (as_u64 hash) real (sym same)))
]

module _ (sq : Sqlite) (laws : IsSqlite sq) (reliable : IsReliable sq laws) where
  open laws use {table, stamp}

  -- What a heartbeat does to the queue, given the row that the node then has.
  on_heartbeat-queue :
      (a : PnpAllocator sq.Conn) (i s now : ℕ) (r : Row)
      → inserted_if_absent (static_row i) (stamp a.db) (table a.db) i ≡ some r
      → (on_heartbeat sq a i s now).get_info_queue ≡ (
          if needs_get_info (to_entry r) && is_cooled (Map.get i a.recently_queried) s
          then a.get_info_queue ++ i ∷ []
          else a.get_info_queue)
  unfolding on_heartbeat
  on_heartbeat-queue a i s now r at =
      let here = record_static_node-reliable sq laws a.db reliable i in
      let found =
        find_by_node_id-table sq laws (Db.record_static_node sq a.db i).1 (reads reliable) i r
          (rw here at) in
      rw (found, on_heartbeat) (ground arith)

  -- On a reliable engine, once GetInfo has brought a real unique ID for a node that has a row, the
  -- node's next heartbeat does not put it into the queue.
  pub resolved_not_queried :
      (a : PnpAllocator sq.Conn) (i s now : ℕ) (uid : List ℕ) (r : Row)
      → table a.db i ≡ some r
      → IsReal uid
      → (on_heartbeat sq (on_get_info_result sq a i (some uid)) i s now).get_info_queue
        ≡ a.get_info_queue
  unfolding on_get_info_result
  resolved_not_queried a i s now uid r at real =
      let a' = on_get_info_result sq a i (some uid) in
      let after = update_unique_id-reliable sq laws a.db reliable i uid in
      let at' : table a'.db i ≡ some (with_hex (bytes_to_hex uid) r) = rw after (ground arith) in
      on_heartbeat-queue a' i s now (with_hex (bytes_to_hex uid) r) (ground arith)
      ∙ rw (real_row-needs uid r real)
