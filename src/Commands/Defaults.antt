-- ===== src/Commands/Defaults.antt =====
-- src/cli.rs: `register_defaults`, and the commands that it registers, src/commands.
use cyphal_service.Common.{ℕ, suc, List, [], ◌∷◌, Text, text, Result}
use cyphal_service.Pnp.Db.{AllocationEntry}
use cyphal_service.Transport.State.{NodeEntry, GetInfoResult, TransportDiagnostics}
use cyphal_service.Transport.Handle.{TransportHandle, Reply}
use cyphal_service.Commands.Registry.{Command, CommandRegistry, register}
use cyphal_service.Commands.Nodes.{nodes_execute}
use cyphal_service.Commands.PnpList.{pnp_execute}
use cyphal_service.Commands.Diag.{diag_execute}
use cyphal_service.Commands.GetInfo.{get_info_execute}

-- What becomes of each call on the handle at a place.
pub record Calls : Type 0 where
  pub of_nodes : ℕ → Reply (List NodeEntry)
  pub of_diagnostics : ℕ → Reply TransportDiagnostics
  pub of_get_info : ℕ → ℕ → Reply (Result GetInfoResult Text)
  pub of_allocations : ℕ → Reply (List AllocationEntry)

-- The handles from the given place on, each with its call.
unfoldable pub attach :
    {A : Type 0} → (ℕ → A) → ℕ → List TransportHandle → List (TransportHandle × A)
attach call i [] = []
attach call i (h ∷ hs) = (h, call i) ∷ attach call (suc i) hs

abbrev pub diag_command : List TransportHandle → Calls → Command
diag_command hs calls = record {
  name = text "diag";
  description = text "Show transport diagnostics. Usage: diag [<transport>]";
  execute = diag_execute (attach calls.of_diagnostics 0 hs);
}

abbrev pub hello_command : Command
hello_command = record {
  name = text "hello";
  description = text "Print a greeting";
  execute = λ args. text "hello";
}

abbrev pub help_command : Command
help_command = record {
  name = text "help";
  description = text "List available commands";
  execute = λ args. text "Use the REPL to see available commands.";
}

abbrev pub nodes_command : List TransportHandle → Calls → Command
nodes_command hs calls = record {
  name = text "nodes";
  description = text "List Cyphal nodes observed on transports. Usage: nodes [<transport>]";
  execute = nodes_execute (attach calls.of_nodes 0 hs);
}

abbrev pub get_info_command : List TransportHandle → Calls → Command
get_info_command hs calls = record {
  name = text "get-info";
  description = text "Query a node's GetInfo. Usage: get-info <transport> <node-id>";
  execute = get_info_execute (attach calls.of_get_info 0 hs);
}

abbrev pub pnp_list_command : List TransportHandle → Calls → Command
pnp_list_command hs calls = record {
  name = text "pnp-list";
  description = text "List PNP node-ID allocations. Usage: pnp-list [<transport>]";
  execute = pnp_execute (attach calls.of_allocations 0 hs);
}

unfoldable pub register_defaults : CommandRegistry → List TransportHandle → Calls → CommandRegistry
unfolding register attach
register_defaults r hs calls =
    register
      (register
        (register
          (register (register (register r (diag_command hs calls)) hello_command) help_command)
          (nodes_command hs calls))
        (get_info_command hs calls))
      (pnp_list_command hs calls)
