-- ===== src/Pnp/Sqlite.antt =====
-- The SQLite engine, reached through rusqlite, as an interface: the statements that src/pnp/db.rs
-- issues on its one table, each of which may fail, and what SQLite documents of them.
-- An error is the text that rusqlite displays.
use cyphal_service.Common.{
  ℕ, ◌≡◌, Bool, true, false, Option, none, some, List, ◌==◌, if◌then◌else◌, is_some, is_some_and,
  Text, text_eq, Result, ok, err,
}
use cyphal_service.Common.Int.{ℤ, eq_ℤ}
use mathlib.Core.Option

-- A row of the table `allocation`. `ts` is the column's text, if it reads as one.
pub record Row : Type 0 where
  pub node_id : ℕ
  pub unique_id_hex : Option Text
  pub pseudo_unique_id : Option ℤ
  pub ts : Option Text

-- The columns that an INSERT gives.
pub record NewRow : Type 0 where
  pub node_id : ℕ
  pub unique_id_hex : Text
  pub pseudo_unique_id : Option ℤ

-- The WHERE clauses.
pub data Where : Type 0 where
  unique_id_hex_is : Text → Where
  pseudo_unique_id_is : ℤ → Where
  node_id_is : ℕ → Where

-- NULL is equal to nothing.
abbrev pub matches : Where → Row → Bool
matches (unique_id_hex_is h) r = is_some_and r.unique_id_hex (λ s. text_eq s h)
matches (pseudo_unique_id_is p) r = is_some_and r.pseudo_unique_id (λ q. eq_ℤ q p)
matches (node_id_is i) r = r.node_id == i

pub record Sqlite : Type 1 where
  pub Conn : Type 0
  -- SELECT … WHERE … LIMIT 1 by `query_row`; `ok none` is `QueryReturnedNoRows`.
  pub select_first : Conn → Where → Result (Option Row) Text
  -- SELECT COUNT(*) … WHERE node_id = i.
  pub select_count : Conn → ℕ → Result ℕ Text
  -- SELECT … ORDER BY node_id: preparing it may fail, and so may reading a row.
  pub select_all : Conn → Result (List (Result Row Text)) Text
  pub insert : Conn → NewRow → Result (Unit {0}) Text × Conn
  pub insert_or_ignore : Conn → NewRow → Result (Unit {0}) Text × Conn
  -- UPDATE … SET unique_id_hex = h WHERE node_id = i.
  pub update_unique_id_hex : Conn → Text → ℕ → Result (Unit {0}) Text × Conn

-- The content of the table by primary key.
abbrev pub Table : Type 0
Table = ℕ → Option Row

abbrev pub stamped : NewRow → Option Text → Row
stamped n ts = record {
  node_id = n.node_id;
  unique_id_hex = some n.unique_id_hex;
  pseudo_unique_id = n.pseudo_unique_id;
  ts = ts;
}

abbrev pub with_hex : Text → Row → Row
with_hex h r = record r { unique_id_hex = some h }

-- What each writing statement does to the table when it succeeds.
abbrev pub inserted : NewRow → Option Text → Table → Table
inserted n ts t j = if n.node_id == j then some (stamped n ts) else t j

abbrev pub inserted_if_absent : NewRow → Option Text → Table → Table
inserted_if_absent n ts t j = if is_some (t j) then t j else inserted n ts t j

abbrev pub updated : Text → ℕ → Table → Table
updated h i t j = if i == j then Option.map (with_hex h) (t j) else t j

-- The documented behaviour: reads see the table, a successful write changes it as stated, a failed
-- one leaves it (a statement is atomic), and the primary key is unique.
pub record IsSqlite (sq : Sqlite) : Type 0 where
  pub table : sq.Conn → Table
  -- The time that a write by this connection would record.
  pub stamp : sq.Conn → Option Text
  pub key : (c : sq.Conn) (i : ℕ) (r : Row) → table c i ≡ some r → r.node_id ≡ i
  pub first_hit :
      (c : sq.Conn) (w : Where) (r : Row)
      → sq.select_first c w ≡ ok (some r)
      → (table c r.node_id ≡ some r) × (matches w r ≡ true)
  pub first_miss :
      (c : sq.Conn) (w : Where) (i : ℕ) (r : Row)
      → sq.select_first c w ≡ ok none
      → table c i ≡ some r
      → matches w r ≡ false
  pub count_rows :
      (c : sq.Conn) (i n : ℕ)
      → sq.select_count c i ≡ ok n
      → n ≡ (if is_some (table c i) then 1 else 0)
  pub insert_ok :
      (c : sq.Conn) (n : NewRow)
      → (sq.insert c n).0 ≡ ok tt
      → (table c n.node_id ≡ none) × (table (sq.insert c n).1 ≡ inserted n (stamp c) (table c))
  pub insert_err :
      (c : sq.Conn) (n : NewRow) (e : Text)
      → (sq.insert c n).0 ≡ err e
      → table (sq.insert c n).1 ≡ table c
  pub ignore_ok :
      (c : sq.Conn) (n : NewRow)
      → (sq.insert_or_ignore c n).0 ≡ ok tt
      → table (sq.insert_or_ignore c n).1 ≡ inserted_if_absent n (stamp c) (table c)
  pub ignore_err :
      (c : sq.Conn) (n : NewRow) (e : Text)
      → (sq.insert_or_ignore c n).0 ≡ err e
      → table (sq.insert_or_ignore c n).1 ≡ table c
  pub update_ok :
      (c : sq.Conn) (h : Text) (i : ℕ)
      → (sq.update_unique_id_hex c h i).0 ≡ ok tt
      → table (sq.update_unique_id_hex c h i).1 ≡ updated h i (table c)
  pub update_err :
      (c : sq.Conn) (h : Text) (i : ℕ) (e : Text)
      → (sq.update_unique_id_hex c h i).0 ≡ err e
      → table (sq.update_unique_id_hex c h i).1 ≡ table c

-- An engine whose reads succeed.
pub record IsReadable (sq : Sqlite) : Type 0 where
  pub first_ok : (c : sq.Conn) (w : Where) → (o : Option Row) × (sq.select_first c w ≡ ok o)
  pub count_total : (c : sq.Conn) (i : ℕ) → (n : ℕ) × (sq.select_count c i ≡ ok n)

-- An engine that meets no I/O error: reads succeed, and so do writes that break no constraint.
pub record IsReliable (sq : Sqlite) (laws : IsSqlite sq) : Type 0 where
  pub first_ok : (c : sq.Conn) (w : Where) → (o : Option Row) × (sq.select_first c w ≡ ok o)
  pub count_total : (c : sq.Conn) (i : ℕ) → (n : ℕ) × (sq.select_count c i ≡ ok n)
  pub insert_total :
      (c : sq.Conn) (n : NewRow) → laws.table c n.node_id ≡ none → (sq.insert c n).0 ≡ ok tt
  pub ignore_total : (c : sq.Conn) (n : NewRow) → (sq.insert_or_ignore c n).0 ≡ ok tt
  pub update_total : (c : sq.Conn) (h : Text) (i : ℕ) → (sq.update_unique_id_hex c h i).0 ≡ ok tt

pub reads : {sq : Sqlite} {laws : IsSqlite sq} → IsReliable sq laws → IsReadable sq
reads reliable = record { first_ok = reliable.first_ok; count_total = reliable.count_total }
