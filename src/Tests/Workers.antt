-- ===== src/Tests/Workers.antt =====
-- The theorems on the workers, applied to a worker on a small network: its subjects are 1 to 3, its
-- service 4, and a payload is the fields of the message.
use cyphal_service.Common.{
  ◌+◌, ◌≡◌, refl, none, some, false, List, [], ◌∷◌, ◌++◌, arith, ◌≤◌, ltb, if◌then◌else◌, ok, ◌==◌,
  length,
}
use cyphal_service.Common.Map
use cyphal_service.Pnp.Memory.Laws.{memory, empty, MemoryTable}
use cyphal_service.Transport.State
use cyphal_service.Transport.State.{
  NodeEntry, WorkerState, TransportCommand, list_nodes, get_info, tick_local_node, aged,
  on_heartbeat,
}
use cyphal_service.Transport.State.Recent.{
  Heartbeat, hear, sources, last_eight, after_tick, hear-last_eight, get-on_heartbeat,
  get-tick_local_node,
}
use cyphal_service.Transport.Worker.{Cyphal, Worker, Round, Transfer, response}
use cyphal_service.Transport.Replies.{for_info, owed, asks_on, asked_in}
use cyphal_service.Transport.Answers.{answered_at_most_once, command_accounted}
use cyphal_service.Transport.Udp.Loop.{init_worker}
use cyphal_service.Transport.Udp.Loop as Udp
use cyphal_service.Transport.Serial.Loop as Serial
use cyphal_service.Transport.Socketcan.Loop as Socketcan
use cyphal_service.Transport.Gsusb.Worker.Loop as Gsusb
use cyphal_service.Transport.Udp.Transfers as UdpTransfers
use cyphal_service.Transport.Gsusb.Worker.Transfers as GsusbTransfers
use cyphal_service.Transport.Socketcan.Transfers as SocketcanTransfers
use cyphal_service.Transport.Serial.Transfers as SerialTransfers
use cyphal_service.Transport.Agreement.{handle_transfer_agree}

-- The node keeps the transfers that it will report, all of them at its next reception.
abbrev pub small_net : Cyphal
small_net = record {
  Node = List Transfer;
  Token = Unit {0};
  heartbeat_subject = 1;
  pnp_v1_subject = 2;
  pnp_v2_subject = 3;
  get_info_service = 4;
  is_node_id = λ i. ltb i 65535;
  parse_heartbeat = λ bytes. some (record { uptime = length bytes; health = 0; mode = 0 });
  parse_v1 = λ bytes. some (record { unique_id_hash = length bytes; allocated_node_id = [] });
  parse_v2 = λ bytes. some (record { node_id = 0; unique_id = bytes });
  parse_get_info = λ bytes. some (record {
    name = bytes;
    hardware_version = (1, 0);
    software_version = (1, 0);
    unique_id = bytes;
  });
  from_utf8_lossy = λ bytes. bytes;
  send_request = λ node token i. (ok tt, node);
  publish_v1 = λ node msg. node;
  publish_v2 = λ node msg. node;
  receive = λ node. record { transfers = node; outcome = ok tt; node = [] };
  run_per_second_tasks = λ node. node;
  flush = λ node. node;
}

abbrev pub info_answer : Transfer
info_answer = response (record { source = 5; service = 4; payload = 7 ∷ [] }) 20

abbrev pub worker : Worker MemoryTable (List Transfer)
worker = init_worker memory small_net (info_answer ∷ []) 2 (some empty) 0

abbrev pub ask_info : Round
ask_info = record {
  shutdown = false;
  commands = (10, get_info 5 77) ∷ [];
  timeout_at = 11;
  dispatch_at = 12;
  pnp_timeout_at = 13;
  second_elapsed_at = 14;
  second_at = 15;
}

worker_idle : worker.state.pending_get_info ≡ none
unfolding init_worker State.register_local_node Map.get State.default
worker_idle = refl

answered_at_most_once_example :
    (owed (Udp.run_loop memory small_net (some tt) 2 worker (ask_info ∷ [])) (for_info 77)
      ≤ owed worker (for_info 77) + asked_in (for_info 77) (ask_info ∷ []))
    × (owed (Serial.run_loop memory small_net (some tt) 2 worker (ask_info ∷ [])) (for_info 77)
        ≤ owed worker (for_info 77) + asked_in (for_info 77) (ask_info ∷ []))
    × (owed (Socketcan.run_loop memory small_net (some tt) 2 worker (ask_info ∷ [])) (for_info 77)
        ≤ owed worker (for_info 77) + asked_in (for_info 77) (ask_info ∷ []))
    × (owed (Gsusb.run_loop memory small_net (some tt) 2 worker (ask_info ∷ [])) (for_info 77)
        ≤ owed worker (for_info 77) + asked_in (for_info 77) (ask_info ∷ []))
answered_at_most_once_example =
    answered_at_most_once memory small_net (some tt) 2 worker (ask_info ∷ []) (for_info 77)

command_accounted_example :
    (owed (Udp.poll memory small_net (some tt) 2 worker ask_info) (for_info 77)
      ≡ owed worker (for_info 77) + asks_on (for_info 77) (get_info 5 77))
    × (owed (Serial.poll memory small_net (some tt) 2 worker ask_info) (for_info 77)
        ≡ owed worker (for_info 77) + asks_on (for_info 77) (get_info 5 77))
    × (owed (Socketcan.poll memory small_net (some tt) 2 worker ask_info) (for_info 77)
        ≡ owed worker (for_info 77) + asks_on (for_info 77) (get_info 5 77))
    × (owed (Gsusb.poll memory small_net (some tt) 2 worker ask_info) (for_info 77)
        ≡ owed worker (for_info 77) + asks_on (for_info 77) (get_info 5 77))
command_accounted_example =
    command_accounted memory small_net (some tt) 2 worker ask_info 10 (get_info 5 77) (for_info 77)
      refl worker_idle

handle_transfer_agree_example :
    (GsusbTransfers.handle_transfer memory small_net worker info_answer
      ≡ UdpTransfers.handle_transfer memory small_net worker info_answer)
    × (SocketcanTransfers.handle_transfer memory small_net worker info_answer
        ≡ UdpTransfers.handle_transfer memory small_net worker info_answer)
    × (SerialTransfers.handle_transfer memory small_net worker info_answer
        ≡ UdpTransfers.handle_transfer memory small_net worker info_answer)
handle_transfer_agree_example = handle_transfer_agree memory small_net worker info_answer

abbrev beat : Heartbeat
beat = record { at = 1; source = 9; uptime = 100; health = 0; mode = 0 }

abbrev beats : List Heartbeat
beats = beat ∷ beat ∷ beat ∷ beat ∷ beat ∷ beat ∷ beat ∷ beat ∷ beat ∷ []

default_short : length State.default.recent_heartbeat_sources ≤ 8
unfolding State.default
default_short = omega arith

hear-last_eight_example :
    (hear State.default beats).recent_heartbeat_sources
    ≡ last_eight (State.default.recent_heartbeat_sources ++ sources beats)
hear-last_eight_example = hear-last_eight State.default beats default_short

get-tick_local_node_example : Map.get 2 (tick_local_node State.default 2).observed_nodes ≡ (
    if 2 == 2
    then some (after_tick 2 (Map.get 2 State.default.observed_nodes))
    else Map.get 2 State.default.observed_nodes)
get-tick_local_node_example = get-tick_local_node State.default 2 2

get-on_heartbeat_example : Map.get 9 (on_heartbeat State.default 1 9 100 0 0).observed_nodes ≡ (
    if 9 == 9
    then some (record { node_id = 9; uptime = 100; health = 0; mode = 0 })
    else Map.get 9 State.default.observed_nodes)
get-on_heartbeat_example = get-on_heartbeat State.default beat 9
