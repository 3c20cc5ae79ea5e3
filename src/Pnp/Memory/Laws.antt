-- ===== src/Pnp/Memory/Laws.antt =====
-- The table in memory as an engine, with the interface's laws.
use mathlib.Core.Path.{fun_ext}
use cyphal_service.Common.{
  ℕ, ◌≡◌, refl, sym, true, false, Option, none, some, List, [], map, arith, if◌then◌else◌, is_some,
  Text, text, Result, ok, err,
}
use cyphal_service.Pnp.Sqlite.{
  Row, NewRow, Where, matches, Sqlite, IsSqlite, IsReliable, Table, stamped, inserted,
  inserted_if_absent, updated,
}
use cyphal_service.Pnp.Memory.Rows.{
  Ascending, row_at, first_match, insert_row, update_row, stamp, insert_row-Ascending,
  update_row-Ascending, row_at-key, row_at-insert_row, row_at-update_row, first_match-hit,
  first_match-miss,
}

abbrev pub MemoryTable : Type 0
MemoryTable = (rows : List Row) × Ascending 0 rows

abbrev pub empty : MemoryTable
empty = ([], tt)

unfoldable pub put : MemoryTable → NewRow → MemoryTable
unfolding insert_row
put c n = (
  insert_row (stamped n stamp) c.0,
  insert_row-Ascending 0 (stamped n stamp) c.0 (omega arith) c.1,
)

unfoldable pub change : MemoryTable → Text → ℕ → MemoryTable
unfolding update_row
change c h i = (update_row h i c.0, update_row-Ascending 0 h i c.0 c.1)

unfoldable pub insert_checked :
    Option Row → MemoryTable → NewRow → Result (Unit {0}) Text × MemoryTable
unfolding put
insert_checked none c n = (ok tt, put c n)
insert_checked (some r) c n = (err (text "UNIQUE constraint failed"), c)

abbrev pub memory : Sqlite
memory = record {
  Conn = MemoryTable;
  select_first = λ c w. ok (first_match c.0 w);
  select_count = λ c i. ok (if is_some (row_at c.0 i) then 1 else 0);
  select_all = λ c. ok (map (λ r. ok r) c.0);
  insert = λ c n. insert_checked (row_at c.0 n.node_id) c n;
  insert_or_ignore = λ c n. (ok tt, put c n);
  update_unique_id_hex = λ c h i. (ok tt, change c h i);
}

pub put-table :
    (c : MemoryTable) (n : NewRow) → row_at (put c n).0 ≡ inserted_if_absent n stamp (row_at c.0)
unfolding put
put-table c n = fun_ext λ i. row_at-insert_row 0 (stamped n stamp) c.0 i c.1

put-absent :
    (c : MemoryTable) (n : NewRow)
    → row_at c.0 n.node_id ≡ none
    → row_at (put c n).0 ≡ inserted n stamp (row_at c.0)
unfolding put
put-absent c n e = fun_ext λ i. ground (arith, row_at-insert_row 0 (stamped n stamp) c.0 i c.1)

pub insert_checked-ok :
    (o : Option Row) (c : MemoryTable) (n : NewRow)
    → o ≡ row_at c.0 n.node_id
    → (insert_checked o c n).0 ≡ ok tt
    → (row_at c.0 n.node_id ≡ none)
      × (row_at (insert_checked o c n).1.0 ≡ inserted n stamp (row_at c.0))
unfolding insert_checked
insert_checked-ok none c n e h = (sym e, put-absent c n (sym e))
insert_checked-ok (some r) c n e h = cc

pub insert_checked-err :
    (o : Option Row) (c : MemoryTable) (n : NewRow) (w : Text)
    → (insert_checked o c n).0 ≡ err w
    → row_at (insert_checked o c n).1.0 ≡ row_at c.0
unfolding insert_checked
insert_checked-err none c n w h = cc
insert_checked-err (some r) c n w h = refl

pub change-table :
    (c : MemoryTable) (h : Text) (i : ℕ) → row_at (change c h i).0 ≡ updated h i (row_at c.0)
unfolding change
change-table c h i = fun_ext λ j. row_at-update_row h i c.0 j

pub hit :
    (c : MemoryTable) (w : Where) (r : Row)
    → memory.select_first c w ≡ ok (some r)
    → (row_at c.0 r.node_id ≡ some r) × (matches w r ≡ true)
hit c w r e = let h = first_match-hit 0 c.0 w r c.1 (ground arith) in (h.0, h.1)

pub miss :
    (c : MemoryTable) (w : Where) (i : ℕ) (r : Row)
    → memory.select_first c w ≡ ok none
    → row_at c.0 i ≡ some r
    → matches w r ≡ false
miss c w i r e = first_match-miss c.0 w i r (ground arith)

pub count_lem :
    (c : MemoryTable) (i n : ℕ)
    → memory.select_count c i ≡ ok n
    → n ≡ (if is_some (row_at c.0 i) then 1 else 0)
count_lem c i n e = ground arith

pub ok-ne-err :
    (r : Result (Unit {0}) Text) (e : Text) {t t' : Table} → r ≡ ok tt → r ≡ err e → t ≡ t'
ok-ne-err r e g h = cc

abbrev pub memory_laws : IsSqlite memory
memory_laws = record {
  table = λ c. row_at c.0;
  stamp = λ c. stamp;
  key = λ c. row_at-key c.0;
  first_hit = hit;
  first_miss = miss;
  count_rows = count_lem;
  insert_ok = λ c n. insert_checked-ok (row_at c.0 n.node_id) c n refl;
  insert_err = λ c n w. insert_checked-err (row_at c.0 n.node_id) c n w;
  ignore_ok = λ c n e. put-table c n;
  ignore_err = λ c n w. ok-ne-err (ok tt) w refl;
  update_ok = λ c h i e. change-table c h i;
  update_err = λ c h i w. ok-ne-err (ok tt) w refl;
}

pub memory-IsReliable : IsReliable memory memory_laws
unfolding insert_checked
memory-IsReliable = record {
  first_ok = λ c w. (first_match c.0 w, refl);
  count_total = λ c i. (if is_some (row_at c.0 i) then 1 else 0, refl);
  insert_total = λ c n e. rw (e, insert_checked);
  ignore_total = λ c n. refl;
  update_total = λ c h i. refl;
}
