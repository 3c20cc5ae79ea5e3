-- ===== src/Commands/PnpList.antt =====
-- src/commands/pnp.rs: the list of a transport's allocations.
use cyphal_service.Common.{Option, none, some, List, [], ◌∷◌, ◌++◌, Text, text}
use cyphal_service.Common.Decimal.{decimal}
use cyphal_service.Common.Int.{ℤ}
use cyphal_service.Pnp.Db.{AllocationEntry}
use cyphal_service.Transport.Handle.{list_allocations}
use cyphal_service.Commands.Texts.{padded, trim_end, signed_decimal}
use cyphal_service.Commands.Selection.{Attached, select, over_selected}

-- `"  {:<8} {:<34} {:<20} {}\n"`.
abbrev pub allocation_columns : Text → Text → Text → Text → Text
allocation_columns a b c d =
    text "  "
    ++ (padded 8 a
        ++ (text " "
            ++ (padded 34 b ++ (text " " ++ (padded 20 c ++ (text " " ++ (d ++ 10 ∷ [])))))))

abbrev pub pseudo_text : Option ℤ → Text
pseudo_text none = text "NULL"
pseudo_text (some v) = signed_decimal v

unfoldable pub allocation_lines : List AllocationEntry → Text
allocation_lines [] = []
allocation_lines (e ∷ es) =
    allocation_columns (decimal e.node_id) e.unique_id_hex (pseudo_text e.pseudo_unique_id) e.ts
    ++ allocation_lines es

abbrev pub allocation_table : List AllocationEntry → Text
allocation_table [] = text "  (no allocations)" ++ 10 ∷ []
allocation_table (e ∷ es) =
    allocation_columns (text "Node ID") (text "Unique ID (hex)") (text "Pseudo UID")
      (text "Timestamp")
    ++ allocation_lines (e ∷ es)

unfoldable pub allocation_sections : List (Attached (List AllocationEntry)) → Text
unfolding allocation_lines
allocation_sections [] = []
allocation_sections ((h, reply) ∷ hs) =
    text "Transport: "
    ++ (h.name ++ (10 ∷ (allocation_table (list_allocations reply) ++ allocation_sections hs)))

-- `PnpListCommand::execute`.
unfoldable pub pnp_execute : List (Attached (List AllocationEntry)) → List Text → Text
unfolding select allocation_sections
pnp_execute = over_selected (λ selected. trim_end (allocation_sections selected))
