-- ===== src/Tests/Service.antt =====
-- The theorems on the handles, the commands and the configuration, applied to small samples.
use cyphal_service.Common.{
  inl, inr, ◌++◌, ℕ, ◌≡◌, ◌≢◌, ◌≤◌, refl, true, false, none, some, List, [], ◌∷◌, map,
  if◌then◌else◌, ◌&&◌, Result, ok, Text, text, text_eq,
}
use cyphal_service.Config.{AppConfig, can, udp, CanConfig, socketcan}
use cyphal_service.Cli.{Read, line, any_end, repl_loop, is_ok, repl_loop-signal}
use cyphal_service.Commands.Texts.{trim, trim_start, trim_end, is_blank}
use cyphal_service.Transport.State.{NodeEntry, silent_node}
use cyphal_service.Transport.Handle.{
  TransportHandle, Reply, replied, stopped, silent, list_nodes, count_node, list_nodes-local,
}
use cyphal_service.Transport.Manager.{start_all, handle_of, supported, start_all-supported}
use cyphal_service.Commands.Registry.{Command, register, dispatch, is_whitespace, list}
use cyphal_service.Commands.Registry.Words.{IsSpelling, spelled, dispatch-register}
use cyphal_service.Commands.Registry.Listing.{IsSorted, entries, list-sorts}
use mathlib.Core.List.{Perm}

abbrev bench : TransportHandle
bench = record { name = text "bench"; local_node_id = some 42 }

abbrev answer : Reply (List NodeEntry)
answer = replied (silent_node 7 ∷ [])

answer_came : answer ≢ stopped
answer_came e = cc

list_nodes-local_example :
    (1 ≤ count_node (list_nodes bench answer) 42)
    × ((j : ℕ)
        → j ≢ 42
        → count_node (list_nodes bench answer) j
          ≡ (elim answer [ stopped ↦ 0 | silent ↦ 0 | replied nodes ↦ count_node nodes j ]))
list_nodes-local_example = list_nodes-local bench 42 answer refl answer_came

abbrev hello : Command
hello = record {
  name = text "hello";
  description = text "Print a greeting";
  execute = λ args. text "hello";
}

-- The line is as the loop passes it on: no white space before the first word or after the last.
abbrev hello_you : List (Text × Text)
hello_you = (text "hello", 32 ∷ 9 ∷ []) ∷ (text "you", []) ∷ []

hello_you-IsSpelling : IsSpelling hello_you
unfolding is_whitespace
hello_you-IsSpelling = (
  record { not_empty = λ e. cc; solid = (refl, (refl, (refl, (refl, (refl, tt))))) },
  ((refl, (refl, tt))),
  inl (λ e. cc),
  (record { not_empty = λ e. cc; solid = (refl, (refl, (refl, tt))) }, tt, inr refl, tt),
)

dispatch-register_example :
    (dispatch [] (spelled [] hello_you)
      ≡ some (
          text "Unknown command: '"
          ++ text "hello"
          ++ text "'.  Type 'help' for available commands."))
    × (dispatch (register [] hello) (spelled [] hello_you) ≡ (
        if text_eq hello.name (text "hello")
        then some (hello.execute (text "you" ∷ []))
        else dispatch [] (spelled [] hello_you)))
dispatch-register_example =
    dispatch-register [] hello [] (text "hello") (32 ∷ 9 ∷ []) ((text "you", []) ∷ []) tt
      hello_you-IsSpelling

list-sorts_example :
    IsSorted (list (register [] hello))
    × Perm (list (register [] hello)) (entries (register [] hello))
list-sorts_example = list-sorts (register [] hello)

abbrev bus : CanConfig
bus = record {
  name = text "bus";
  driver = socketcan;
  node_id = 42;
  interface = some (text "can0");
  usb_index = 0;
  vid = none;
  pid = none;
  bitrate = 1000000;
  fd = false;
  pnp_enabled = true;
  pnp_db_path = none;
}

abbrev plant : AppConfig
plant = record {
  transports =
      can bus
      ∷ udp (record {
        name = text "lan";
        node_id = 100;
        interface = text "127.0.0.1";
        port = none;
        pnp_enabled = true;
        pnp_db_path = none;
      })
      ∷ [];
}

start_all-supported_example :
    start_all false plant ≡ map handle_of (supported false plant.transports)
start_all-supported_example = start_all-supported false plant

abbrev started : Result (Unit {0}) Text
started = ok tt

abbrev session : List Read
session =
    line (text " hello you ") ∷ line (text "") ∷ line (text "exit ") ∷ line (text "hello") ∷ []

session_ends : any_end session ≡ true
unfolding trim trim_start trim_end is_blank is_whitespace text_eq
session_ends = refl

repl_loop-signal_example :
    (repl_loop (register [] hello) started session).1 ≡ (is_ok started && any_end session)
repl_loop-signal_example = repl_loop-signal (register [] hello) started session
