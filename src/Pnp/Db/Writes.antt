-- ===== src/Pnp/Db/Writes.antt =====
-- src/pnp/db.rs: what the writing operations do to the table, on success and on failure.
use cyphal_service.Common.{
  ℕ, ◌≡◌, ap, ◌⊎◌, inl, inr, none, List, Text, text, Result, ok, err, Result-cases,
}
use cyphal_service.Pnp.Hex.{bytes_to_hex}
use cyphal_service.Pnp.Sqlite.{
  Sqlite, IsSqlite, IsReliable, Table, NewRow, inserted, inserted_if_absent, updated,
}
use cyphal_service.Pnp.Db.{
  insert_v1, insert_v2, record_static_node, update_unique_id, v1_row, v2_row, static_row,
  with_context,
}

-- Either the write succeeds and leaves `t'`, or it fails and leaves `t`.
abbrev pub Writes : Result (Unit {0}) Text → Table → Table → Table → Type 0
Writes r t t' after = ((r ≡ ok tt) × (after ≡ t')) ⊎ ((e : Text) × (r ≡ err e) × (after ≡ t))

module _ (sq : Sqlite) (laws : IsSqlite sq) (c : sq.Conn) where
  open laws use {table, stamp, insert_ok, insert_err, ignore_ok, ignore_err, update_ok, update_err}

  -- An insertion that succeeds found no row with the ID.
  abbrev pub Inserts : Result (Unit {0}) Text → NewRow → Table → Type 0
  Inserts r n after =
      ((r ≡ ok tt) × (table c n.node_id ≡ none) × (after ≡ inserted n (stamp c) (table c)))
      ⊎ ((e : Text) × (r ≡ err e) × (after ≡ table c))

  insert_cases :
      (what : Text) (n : NewRow)
      → Inserts (with_context what (sq.insert c n).0) n (table (sq.insert c n).1)
  insert_cases what n = elim (Result-cases (sq.insert c n).0) [
    | inl (_, e) ↦ inl (ap (with_context what) e, (insert_ok c n e).0, (insert_ok c n e).1)
    | inr (w, e) ↦ inr (_, ap (with_context what) e, insert_err c n w e)
  ]

  pub insert_v2-table :
      (i : ℕ) (uid : List ℕ)
      → Inserts (insert_v2 sq c i uid).0 (v2_row i uid) (table (insert_v2 sq c i uid).1)
  unfolding insert_v2
  insert_v2-table i uid = insert_cases (text "DB insert_v2 failed: ") (v2_row i uid)

  pub insert_v1-table :
      (i hash : ℕ)
      → Inserts (insert_v1 sq c i hash).0 (v1_row i hash) (table (insert_v1 sq c i hash).1)
  unfolding insert_v1
  insert_v1-table i hash = insert_cases (text "DB insert_v1 failed: ") (v1_row i hash)

  pub record_static_node-table :
      (i : ℕ)
      → Writes
          (record_static_node sq c i).0
          (table c)
          (inserted_if_absent (static_row i) (stamp c) (table c))
          (table (record_static_node sq c i).1)
  unfolding record_static_node
  record_static_node-table i = elim (Result-cases (sq.insert_or_ignore c (static_row i)).0) [
    | inl (_, e) ↦
        inl (
          ap (with_context (text "DB record_static_node failed: ")) e,
          ignore_ok c (static_row i) e,
        )
    | inr (w, e) ↦ inr (
      _,
      ap (with_context (text "DB record_static_node failed: ")) e,
      ignore_err c (static_row i) w e,
    )
  ]

  pub update_unique_id-table :
      (i : ℕ) (uid : List ℕ)
      → Writes
          (update_unique_id sq c i uid).0
          (table c)
          (updated (bytes_to_hex uid) i (table c))
          (table (update_unique_id sq c i uid).1)
  unfolding update_unique_id
  update_unique_id-table i uid =
      elim (Result-cases (sq.update_unique_id_hex c (bytes_to_hex uid) i).0) [
        | inl (_, e) ↦ inl (
          ap (with_context (text "DB update_unique_id failed: ")) e,
          update_ok c (bytes_to_hex uid) i e,
        )
        | inr (w, e) ↦ inr (
          _,
          ap (with_context (text "DB update_unique_id failed: ")) e,
          update_err c (bytes_to_hex uid) i w e,
        )
      ]

  pub insert_v2-reliable :
      IsReliable sq laws
      → (i : ℕ) (uid : List ℕ) → table c i ≡ none
      → (insert_v2 sq c i uid).0 ≡ ok tt
  unfolding insert_v2
  insert_v2-reliable reliable i uid free =
      ap (with_context (text "DB insert_v2 failed: ")) (reliable.insert_total c (v2_row i uid) free)

  pub insert_v1-reliable :
      IsReliable sq laws → (i hash : ℕ) → table c i ≡ none → (insert_v1 sq c i hash).0 ≡ ok tt
  unfolding insert_v1
  insert_v1-reliable reliable i hash free =
      ap (with_context (text "DB insert_v1 failed: "))
        (reliable.insert_total c (v1_row i hash) free)

  pub record_static_node-reliable :
      IsReliable sq laws
      → (i : ℕ)
      → table (record_static_node sq c i).1 ≡ inserted_if_absent (static_row i) (stamp c) (table c)
  unfolding record_static_node
  record_static_node-reliable reliable i =
      ignore_ok c (static_row i) (reliable.ignore_total c (static_row i))

  pub update_unique_id-reliable :
      IsReliable sq laws
      → (i : ℕ) (uid : List ℕ)
      → table (update_unique_id sq c i uid).1 ≡ updated (bytes_to_hex uid) i (table c)
  unfolding update_unique_id
  update_unique_id-reliable reliable i uid =
      update_ok c (bytes_to_hex uid) i (reliable.update_total c (bytes_to_hex uid) i)
