-- ===== src/Tests/Storage.antt =====
-- The theorems on the database, applied to a table with the rows 1 and 2.
use cyphal_service.Common.{◌≡◌, refl, none, some, false, [], ◌∷◌, arith, ◌≤◌}
use cyphal_service.Pnp.Sqlite.{Row, reads}
use cyphal_service.Pnp.Db
use cyphal_service.Pnp.Db.{contains}
use cyphal_service.Pnp.Db.Search.{next_free_id-free, next_free_id-lowest, next_free_id-exhausted}
use cyphal_service.Pnp.Memory.Rows
use cyphal_service.Pnp.Memory.Laws
use cyphal_service.Pnp.Memory.Laws.{memory, memory_laws, memory-IsReliable, empty, MemoryTable}

-- The rows 1 and 2, the second a static node's.
abbrev two_rows : MemoryTable
two_rows = (Db.record_static_node memory (Db.insert_v1 memory empty 1 0xABCD).1 2).1

two_rows-next : Db.next_free_id memory two_rows (3 ∷ []) 8 ≡ some 4
unfolding Db.next_free_id Db.free_from Db.contains Db.count_or_one Db.insert_v1
    Db.record_static_node Rows.row_at Laws.insert_checked Rows.insert_row
two_rows-next = refl

two_rows-full : Db.next_free_id memory two_rows (3 ∷ []) 3 ≡ none
unfolding Db.next_free_id Db.free_from Db.contains Db.count_or_one Db.insert_v1
    Db.record_static_node Rows.row_at Laws.insert_checked Rows.insert_row
two_rows-full = refl

two_is_open : contains (3 ∷ []) 2 ≡ false
unfolding contains
two_is_open = refl

next_free_id-free_example :
    (1 ≤ 4) × (4 ≤ 8) × (contains (3 ∷ []) 4 ≡ false) × (memory_laws.table two_rows 4 ≡ none)
next_free_id-free_example = next_free_id-free memory memory_laws two_rows (3 ∷ []) 8 4 two_rows-next

next_free_id-lowest_example : (r : Row) × (memory_laws.table two_rows 2 ≡ some r)
next_free_id-lowest_example =
    next_free_id-lowest memory memory_laws (reads memory-IsReliable) two_rows (3 ∷ []) 8 4
      two_rows-next 2 (omega arith) (omega arith) two_is_open

next_free_id-exhausted_example : (r : Row) × (memory_laws.table two_rows 2 ≡ some r)
next_free_id-exhausted_example =
    next_free_id-exhausted memory memory_laws (reads memory-IsReliable) two_rows (3 ∷ []) 3
      two_rows-full 2 (omega arith) (omega arith) two_is_open
