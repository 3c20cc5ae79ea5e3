-- ===== src/Tests/Lifecycle.antt =====
-- The theorems on how workers start, run and stop, applied to workers on the small network.
use cyphal_service.Common.{
  err, ℕ, ◌≡◌, refl, true, false, Option, none, some, List, [], ◌∷◌, text, ok,
}
use cyphal_service.Commands.Registry.{is_whitespace}
use cyphal_service.Commands.Texts.{trim, trim_start, trim_end, is_blank}
use cyphal_service.Config.{UdpConfig, SerialConfig, CanConfig, gsusb}
use cyphal_service.Pnp.Memory.Laws.{memory, empty, MemoryTable}
use cyphal_service.Pnp.Open.{Files, make_directory, open_db}
use cyphal_service.Transport.Worker.{Round, Transfer}
use cyphal_service.Transport.Startup.{NodeInfo, Registration, prepare, open_allocator}
use cyphal_service.Transport.Gsusb.Driver.{GsUsbDriver}
use cyphal_service.Transport.Listing.Local.{IsListed, run_loop-IsListed}
use cyphal_service.Transport.Lifecycle.{run_loop-shutdown, run_worker-invalid, opening, given_up}
use cyphal_service.Transport.Udp.Loop as Udp
use cyphal_service.Transport.Serial.Loop as Serial
use cyphal_service.Transport.Socketcan.Loop as Socketcan
use cyphal_service.Transport.Gsusb.Worker.Loop as Gsusb
use cyphal_service.Transport.Udp.Start as UdpStart
use cyphal_service.Transport.Serial.Start as SerialStart
use cyphal_service.Transport.Socketcan.Start as SocketcanStart
use cyphal_service.Transport.Gsusb.Worker.Start as GsusbStart
use cyphal_service.Service.{configuration_error, main, tick, changed, run_tasks}
use cyphal_service.Tests.Workers.{small_net, ask_info, info_answer, worker}
use cyphal_service.Tests.Driver.{toy}

run_loop-IsListed_example :
    IsListed 2 (
      Udp.run_loop memory small_net
        (some tt)
        2
        (Udp.init_worker memory small_net (info_answer ∷ []) 2 (some empty) 0)
        (ask_info ∷ []))
    × IsListed 2 (
        Serial.run_loop memory small_net
          (some tt)
          2
          (Serial.init_worker memory small_net (info_answer ∷ []) 2 (some empty) 0)
          (ask_info ∷ []))
    × IsListed 2 (
        Socketcan.run_loop memory small_net
          (some tt)
          2
          (Socketcan.init_worker memory small_net (info_answer ∷ []) 2 (some empty) 0)
          (ask_info ∷ []))
    × IsListed 2 (
        Gsusb.run_loop memory small_net
          (some tt)
          2
          (Gsusb.init_worker memory small_net (info_answer ∷ []) 2 (some empty) 0)
          (ask_info ∷ []))
run_loop-IsListed_example =
    run_loop-IsListed memory small_net (some tt) 2 (info_answer ∷ []) (some empty) 0 (ask_info ∷ [])

abbrev stop : Round
stop = record ask_info { shutdown = true }

run_loop-shutdown_example :
    (Udp.run_loop memory small_net (some tt) 2 worker (ask_info ∷ stop ∷ ask_info ∷ [])
      ≡ Udp.run_loop memory small_net (some tt) 2 worker (ask_info ∷ []))
    × (Serial.run_loop memory small_net (some tt) 2 worker (ask_info ∷ stop ∷ ask_info ∷ [])
        ≡ Serial.run_loop memory small_net (some tt) 2 worker (ask_info ∷ []))
    × (Socketcan.run_loop memory small_net (some tt) 2 worker (ask_info ∷ stop ∷ ask_info ∷ [])
        ≡ Socketcan.run_loop memory small_net (some tt) 2 worker (ask_info ∷ []))
    × (Gsusb.run_loop memory small_net (some tt) 2 worker (ask_info ∷ stop ∷ ask_info ∷ [])
        ≡ Gsusb.run_loop memory small_net (some tt) 2 worker (ask_info ∷ []))
run_loop-shutdown_example =
    run_loop-shutdown memory small_net (some tt) 2 worker (ask_info ∷ []) (ask_info ∷ []) stop refl

abbrev files : Files MemoryTable
files = record {
  parent = λ path. some (text "/var/lib");
  create_dir_all = λ dir. ok tt;
  open_connection = λ path. ok empty;
  create_table = λ conn. (ok tt, conn);
}

abbrev calls : Registration small_net
calls = record {
  subscribe_message = λ node subject size timeout. node;
  start_sending_requests = λ node service timeout size. (some tt, node);
  start_publishing = λ node subject timeout. node;
}

abbrev udp_out : UdpStart.UdpOutside small_net
udp_out = record {
  Socket = Unit {0};
  default_port = 9382;
  bind = λ port. some tt;
  new_node = λ port iface i socket info. some [];
}

abbrev serial_out : SerialStart.SerialOutside small_net
serial_out = record {
  Port = Unit {0};
  open_port = λ path baud timeout. some tt;
  new_node = λ i port info. some [];
}

abbrev can_out : SocketcanStart.SocketcanOutside small_net
can_out = record {
  Socket = Unit {0};
  open_socket = λ name. some tt;
  set_read_timeout = λ ms socket. socket;
  set_write_timeout = λ ms socket. socket;
  new_node = λ i socket info. some [];
}

abbrev new_node : ℕ → GsUsbDriver (Unit {0}) → NodeInfo → Option (List Transfer)
new_node i driver info = some []

abbrev udp_config : ℕ → UdpConfig
udp_config i = record {
  name = text "lan";
  node_id = i;
  interface = text "192.168.1.20";
  port = none;
  pnp_enabled = true;
  pnp_db_path = none;
}

abbrev serial_config : SerialConfig
serial_config = record {
  name = text "line";
  node_id = 65535;
  port = text "/dev/ttyUSB0";
  baud_rate = 115200;
  pnp_enabled = false;
  pnp_db_path = none;
}

abbrev can_config : CanConfig
can_config = record {
  name = text "can";
  driver = gsusb;
  node_id = 65535;
  interface = some (text "can0");
  usb_index = 0;
  vid = some (text "0x1D50");
  pid = none;
  bitrate = 1000000;
  fd = false;
  pnp_enabled = false;
  pnp_db_path = none;
}

run_worker-invalid_example :
    (UdpStart.run_worker memory small_net files calls udp_out (udp_config 65535) [] 0 [] ≡ none)
    × (SerialStart.run_worker memory small_net files calls serial_out serial_config [] 0 [] ≡ none)
    × (SocketcanStart.run_worker memory small_net files calls can_out can_config [] 0 [] ≡ none)
    × (GsusbStart.run_worker memory small_net files calls toy true new_node can_config [] 0
          ([], [])
          []
        ≡ none)
    × ((GsusbStart.open_node memory small_net files calls toy true new_node can_config []
          ([], [])).1
        ≡ given_up memory small_net files calls toy true new_node
            (opening memory small_net files calls toy true new_node can_config ([], [])).0
            (opening memory small_net files calls toy true new_node can_config ([], [])).1)
run_worker-invalid_example =
    run_worker-invalid memory small_net files calls toy true new_node udp_out serial_out can_out
      (udp_config 65535) serial_config can_config [] 0 ([], []) [] refl refl refl

-- A worker that starts, on the address of the configuration and with a database.
udp_starts :
    UdpStart.run_worker memory small_net files calls udp_out (udp_config 7) [] 0 []
    ≡ some (Udp.init_worker memory small_net [] 7 (some empty) 0)
unfolding UdpStart.run_worker UdpStart.open_node UdpStart.parse_ipv4 UdpStart.split_dots
    Udp.run_loop prepare open_allocator open_db make_directory
udp_starts = refl

an_address : UdpStart.parse_ipv4 (text "192.168.1.20") ≡ some (192 ∷ 168 ∷ 1 ∷ 20 ∷ [])
unfolding UdpStart.parse_ipv4 UdpStart.split_dots
an_address = refl

no_address : UdpStart.parse_ipv4 (text "192.168.01.20") ≡ none
unfolding UdpStart.parse_ipv4 UdpStart.split_dots
no_address = refl

vendor : GsusbStart.parse_hex_u16 (text " 0x1D50 ") ≡ some 0x1d50
unfolding GsusbStart.parse_hex_u16 GsusbStart.from_hex GsusbStart.scan_hex trim trim_start trim_end
    is_blank is_whitespace
vendor = refl

hello_twice :
    run_tasks (tick ∷ tick ∷ changed ∷ tick ∷ []) ≡ (text "hello" ∷ text "hello" ∷ [], true)
unfolding run_tasks
hello_twice = refl

bad_configuration : main true (err (text "x")) ≡ configuration_error (text "Configuration error: x")
unfolding main
bad_configuration = refl
