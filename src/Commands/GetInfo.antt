-- ===== src/Commands/GetInfo.antt =====
-- src/commands/get_info.rs: asking a node for its information.
pub mod NodeId
use cyphal_service.Common.{
  ℕ, Option, none, some, List, [], ◌∷◌, ◌++◌, map, if◌then◌else◌, Text, text, text_eq, Result, ok,
  err,
}
use cyphal_service.Common.Decimal.{decimal}
use cyphal_service.Pnp.Hex.{bytes_to_hex}
use cyphal_service.Transport.State.{GetInfoResult}
use cyphal_service.Transport.Handle.{TransportHandle, Reply, get_info}
use cyphal_service.Commands.Texts.{join, parse_u16}
use cyphal_service.Commands.Selection.{unknown_transport}

-- A handle, and what becomes of a GetInfo call on it for each node ID.
abbrev pub Asked : Type 0
Asked = TransportHandle × (ℕ → Reply (Result GetInfoResult Text))

-- `.find(|h| h.name == transport_name)`.
unfoldable pub find_named : Text → List Asked → Option Asked
find_named name [] = none
find_named name (h ∷ hs) =
    let rest = find_named name hs in if text_eq h.0.name name then some h else rest

abbrev pub version_text : ℕ × ℕ → Text
version_text (major, minor) = decimal major ++ (text "." ++ decimal minor)

unfoldable pub info_text : GetInfoResult → Text
info_text info =
    text "Node "
    ++ (decimal info.node_id
        ++ (text "  ("
            ++ (info.name
                ++ (text ")"
                    ++ ((10 ∷ (text "Hardware : " ++ version_text info.hardware_version))
                        ++ ((10 ∷ (text "Software : " ++ version_text info.software_version))
                            ++ (10
                                ∷ (text "Unique ID: "
                                    ++ join (text ":")
                                        (map (λ b. bytes_to_hex (b ∷ [])) info.unique_id)))))))))

unfoldable pub result_text : Result GetInfoResult Text → Text
unfolding info_text
result_text (ok info) = info_text info
result_text (err e) = text "GetInfo failed: " ++ e

abbrev pub ask : Option Asked → ℕ → Text → Text
ask none node_id otherwise = otherwise
ask (some h) node_id otherwise = result_text (get_info (h.1 node_id))

-- `GetInfoCommand::execute`.
unfoldable pub get_info_execute : List Asked → List Text → Text
unfolding find_named result_text
get_info_execute hs [] = text "Usage: get-info <transport> <node-id>"
get_info_execute hs (name ∷ []) = text "Usage: get-info <transport> <node-id>"
get_info_execute hs (name ∷ id ∷ rest) = elim (parse_u16 id) [
  | none ↦ text "Invalid node ID '" ++ (id ++ text "': must be a number")
  | some node_id ↦
      ask (find_named name hs) node_id (unknown_transport name (map (λ h. h.0.name) hs))
]
