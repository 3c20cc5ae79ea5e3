-- ===== src/Tests/Commands.antt =====
-- The operator's commands, run on two transports, and the theorems on them applied there.
use mathlib.Core.List.{Permᴰ}
use cyphal_service.Common.{
  ℕ, ◌≡◌, refl, none, some, List, [], ◌∷◌, ◌++◌, arith, Text, text, text_eq, ok, true,
}
use cyphal_service.Common.Decimal.{digits_of, decimal}
use cyphal_service.Pnp.Hex.{bytes_to_hex, hex_digit}
use cyphal_service.Transport.State.{NodeEntry, GetInfoResult}
use cyphal_service.Transport.Handle.{
  TransportHandle, stopped, silent, replied, with_local, list_nodes, diagnostics, get_info,
}
use cyphal_service.Commands.Registry.{
  is_whitespace, dispatch, dispatch_words, find_command, insert_command, register, split_from,
}
use cyphal_service.Commands.Texts.{is_blank, trim_end, join, scan_u16, parse_u16}
use cyphal_service.Commands.Selection.{Attached, named, unknown_transport, select}
use cyphal_service.Commands.Nodes.{
  insert_node, sort_nodes, node_lines, node_sections, nodes_execute,
}
use cyphal_service.Commands.Nodes.Unordered.{nodes_execute-same}
use cyphal_service.Commands.Diag.{format_duration, diagnostics_section, diag_execute}
use cyphal_service.Commands.GetInfo.{Asked, find_named, info_text, result_text, get_info_execute}
use cyphal_service.Commands.GetInfo.NodeId.{Told, get_info_execute-decimal}
use cyphal_service.Commands.Texts.{trim, trim_start}
use cyphal_service.Cli.{line, printed, handle_read, answer}
use cyphal_service.Service.{session}
use cyphal_service.Commands.Defaults.{Calls, attach, register_defaults}

abbrev can0 : TransportHandle
can0 = record { name = text "can0"; local_node_id = some 10 }

abbrev udp0 : TransportHandle
udp0 = record { name = text "udp0"; local_node_id = none }

abbrev node : ℕ → ℕ → NodeEntry
node i uptime = record { node_id = i; uptime = uptime; health = 0; mode = 1 }

abbrev of_nodes : List (Attached (List NodeEntry))
of_nodes = (can0, replied (node 42 7 ∷ node 3 100 ∷ [])) ∷ (udp0, silent) ∷ []

abbrev reordered : List (Attached (List NodeEntry))
reordered = (can0, replied (node 3 100 ∷ node 42 7 ∷ [])) ∷ (udp0, silent) ∷ []

nodes_execute-same_example :
    nodes_execute of_nodes (text "can0" ∷ []) ≡ nodes_execute reordered (text "can0" ∷ [])
nodes_execute-same_example =
    nodes_execute-same of_nodes reordered (text "can0" ∷ [])
      (refl, (Permᴰ.swap refl refl, ((omega arith, tt), (tt, tt))), (refl, tt, tt))

-- The nodes in order, the local one among them.
abbrev can0_report : Text
can0_report =
    text "Transport: can0"
    ++ ((10 ∷ text "  Node ID  Uptime(s)  Health     Mode    ")
        ++ ((10 ∷ text "  3        100        0          1       ")
            ++ ((10 ∷ text "  10       0          0          0       ")
                ++ (10 ∷ text "  42       7          0          1"))))

nodes_of_can0 : nodes_execute of_nodes (text "can0" ∷ []) ≡ can0_report
unfolding nodes_execute select named node_sections sort_nodes insert_node node_lines list_nodes
    with_local decimal digits_of trim_end is_blank is_whitespace text_eq
nodes_of_can0 = refl

nodes_of_other :
    nodes_execute of_nodes (text "can1" ∷ [])
    ≡ text "Unknown transport 'can1'. Available: can0, udp0"
unfolding nodes_execute select named unknown_transport join text_eq
nodes_of_other = refl

abbrev info_of : ℕ → GetInfoResult
info_of i = record {
  node_id = i;
  name = text "org.example";
  hardware_version = (1, 0);
  software_version = (2, 11);
  unique_id = 0xAB ∷ 0x01 ∷ [];
}

abbrev asked : List Asked
asked = (can0, λ i. replied (ok (info_of i))) ∷ (udp0, λ i. silent) ∷ []

get_info_execute-decimal_example :
    Told asked (text "can0") 42 (get_info_execute asked (text "can0" ∷ decimal 42 ∷ []))
get_info_execute-decimal_example = get_info_execute-decimal asked (text "can0") 42 []

info_of_42 :
    get_info_execute asked (text "can0" ∷ text "+42" ∷ [])
    ≡ text "Node 42  (org.example)"
      ++ ((10 ∷ text "Hardware : 1.0")
          ++ ((10 ∷ text "Software : 2.11") ++ (10 ∷ text "Unique ID: ab:01")))
unfolding get_info_execute parse_u16 scan_u16 find_named result_text info_text get_info join
    bytes_to_hex hex_digit decimal digits_of text_eq
info_of_42 = refl

info_of_large :
    get_info_execute asked (text "can0" ∷ text "65536" ∷ [])
    ≡ text "Invalid node ID '65536': must be a number"
unfolding get_info_execute parse_u16 scan_u16
info_of_large = refl

half_a_second : format_duration (some 500000000) ≡ text "500ms"
unfolding format_duration decimal digits_of
half_a_second = refl

diag_of_udp0 :
    diag_execute ((udp0, silent) ∷ []) []
    ≡ text "Transport: udp0" ++ (10 ∷ text "  Diagnostics error: timed out waiting for diagnostics")
unfolding diag_execute select diagnostics_section diagnostics join
diag_of_udp0 = refl

abbrev calls : Calls
calls = record {
  of_nodes = λ i. silent;
  of_diagnostics = λ i. silent;
  of_get_info = λ i n. stopped;
  of_allocations = λ i. silent;
}

-- A line of the operator, from the registry on.
get_info_line :
    dispatch (register_defaults [] (can0 ∷ udp0 ∷ []) calls) (text "get-info  udp0 7")
    ≡ some (text "GetInfo failed: transport worker has stopped")
unfolding dispatch split_from is_whitespace dispatch_words find_command register_defaults register
    insert_command attach get_info_execute parse_u16 scan_u16 find_named result_text get_info
    text_eq
get_info_line = refl

-- What follows the end is not read.
a_session :
    session (can0 ∷ udp0 ∷ []) (
      (calls, line (text "hello"))
      ∷ (calls, line (text " quit"))
      ∷ (calls, line (text "hello"))
      ∷ [])
    ≡ (printed (text "hello") ∷ printed (text "Goodbye.") ∷ [], true)
unfolding session handle_read answer trim trim_start trim_end is_blank dispatch split_from
    is_whitespace dispatch_words find_command register_defaults register insert_command attach
    text_eq
a_session = refl
