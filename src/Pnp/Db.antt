-- ===== src/Pnp/Db.antt =====
-- src/pnp/db.rs: the allocation table's operations over a SQLite connection.
pub mod Search
pub mod Writes
pub mod Find
use mathlib.Core.Option
use cyphal_service.Common.{
  ℕ, zero, suc, ◌+◌, ◌%◌, ◌^◌, Bool, true, false, ◌||◌, Option, none, some, List, [], ◌∷◌, ◌++◌,
  ◌==◌, if◌then◌else◌, Text, text, text_eq, replicate, Result, ok, err,
}
use cyphal_service.Common.Int.{ℤ, as_i64, as_u64}
use cyphal_service.Pnp.Hex.{bytes_to_hex, pad_hash}
use cyphal_service.Pnp.Sqlite.{
  Row, NewRow, Where, unique_id_hex_is, pseudo_unique_id_is, node_id_is, Sqlite,
}

pub record AllocationEntry : Type 0 where
  pub node_id : ℕ
  pub unique_id_hex : Text
  pub pseudo_unique_id : Option ℤ
  pub ts : Text

-- The text of a unique ID that is all zeros: `"0".repeat(32)`.
abbrev pub zero_hex : Text
zero_hex = replicate 32 b'0'

unfoldable pub needs_get_info : AllocationEntry → Bool
needs_get_info e = elim e.pseudo_unique_id [
  | none ↦ text_eq e.unique_id_hex zero_hex
  | some hash ↦ text_eq e.unique_id_hex (bytes_to_hex (pad_hash (as_u64 hash)))
]

-- `id as u16`.
abbrev pub as_u16 : ℕ → ℕ
as_u16 n = n % 2 ^ 16

-- `.map_err(|e| format!("DB … failed: {e}"))`.
abbrev pub with_context : Text → Result (Unit {0}) Text → Result (Unit {0}) Text
with_context what (ok u) = ok u
with_context what (err e) = err (what ++ e)

-- `query_row(…).ok()`.
abbrev pub first_row : Result (Option Row) Text → Option Row
first_row (ok o) = o
first_row (err e) = none

abbrev pub to_entry : Row → AllocationEntry
to_entry r = record {
  node_id = as_u16 r.node_id;
  unique_id_hex = Option.get_or r.unique_id_hex [];
  pseudo_unique_id = r.pseudo_unique_id;
  ts = Option.get_or r.ts [];
}

unfoldable pub contains : List ℕ → ℕ → Bool
contains [] i = false
contains (x ∷ xs) i = x == i || contains xs i

-- The entries of the rows that could be read.
pub entries : List (Result Row Text) → List AllocationEntry
entries [] = []
entries (ok r ∷ rs) = to_entry r ∷ entries rs
entries (err e ∷ rs) = entries rs

abbrev pub v2_row : ℕ → List ℕ → NewRow
v2_row node_id uid = record {
  node_id = node_id;
  unique_id_hex = bytes_to_hex uid;
  pseudo_unique_id = none;
}

abbrev pub v1_row : ℕ → ℕ → NewRow
v1_row node_id hash = record {
  node_id = node_id;
  unique_id_hex = bytes_to_hex (pad_hash hash);
  pseudo_unique_id = some (as_i64 hash);
}

abbrev pub static_row : ℕ → NewRow
static_row node_id = record { node_id = node_id; unique_id_hex = zero_hex; pseudo_unique_id = none }

module _ (sq : Sqlite) where
  unfoldable pub find_by_unique_id : sq.Conn → List ℕ → Option ℕ
  find_by_unique_id c uid =
      Option.map (λ (r : Row). as_u16 r.node_id)
        (first_row (sq.select_first c (unique_id_hex_is (bytes_to_hex uid))))

  unfoldable pub find_by_hash : sq.Conn → ℕ → Option ℕ
  find_by_hash c hash =
      Option.map (λ (r : Row). as_u16 r.node_id)
        (first_row (sq.select_first c (pseudo_unique_id_is (as_i64 hash))))

  -- A row count that cannot be read counts as one.
  unfoldable pub count_or_one : sq.Conn → ℕ → ℕ
  count_or_one c i = elim (sq.select_count c i) [ ok n ↦ n | err e ↦ 1 ]

  -- The loop over the candidates: `rounds` are left, and `candidate` is the next one.
  unfoldable pub free_from : sq.Conn → List ℕ → ℕ → ℕ → Option ℕ
  free_from c reserved zero candidate = none
  free_from c reserved (suc rounds) candidate =
      let rest = free_from c reserved rounds (candidate + 1) in
      if contains reserved candidate
      then rest
      else (if count_or_one c candidate == 0 then some candidate else rest)

  unfoldable pub next_free_id : sq.Conn → List ℕ → ℕ → Option ℕ
  next_free_id c reserved max_id = free_from c reserved max_id 1

  unfoldable pub insert_v2 : sq.Conn → ℕ → List ℕ → Result (Unit {0}) Text × sq.Conn
  insert_v2 c node_id uid =
      let r = sq.insert c (v2_row node_id uid) in
      (with_context (text "DB insert_v2 failed: ") r.0, r.1)

  unfoldable pub insert_v1 : sq.Conn → ℕ → ℕ → Result (Unit {0}) Text × sq.Conn
  insert_v1 c node_id hash =
      let r = sq.insert c (v1_row node_id hash) in
      (with_context (text "DB insert_v1 failed: ") r.0, r.1)

  unfoldable pub record_static_node : sq.Conn → ℕ → Result (Unit {0}) Text × sq.Conn
  record_static_node c node_id =
      let r = sq.insert_or_ignore c (static_row node_id) in
      (with_context (text "DB record_static_node failed: ") r.0, r.1)

  unfoldable pub find_by_node_id : sq.Conn → ℕ → Option AllocationEntry
  find_by_node_id c node_id =
      Option.map to_entry (first_row (sq.select_first c (node_id_is node_id)))

  unfoldable pub update_unique_id : sq.Conn → ℕ → List ℕ → Result (Unit {0}) Text × sq.Conn
  update_unique_id c node_id uid =
      let r = sq.update_unique_id_hex c (bytes_to_hex uid) node_id in
      (with_context (text "DB update_unique_id failed: ") r.0, r.1)

  pub list_all : sq.Conn → List AllocationEntry
  list_all c = elim (sq.select_all c) [ ok rows ↦ entries rows | err e ↦ [] ]
