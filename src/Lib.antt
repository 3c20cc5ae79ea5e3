-- ===== src/Lib.antt =====
-- Verification library of cyphal_service, a service that joins Cyphal networks over CAN, UDP and
-- serial lines, answers plug-and-play requests for node IDs, and lets an operator inspect the nodes.
--
-- The program's parts, and the modules that model them:
-- * the allocator, src/pnp/allocator.rs, in Pnp.Allocator: `PnpAllocator` is the record of the same
--   name, and each method a function of the same name that returns the new state. It keeps a queue
--   of nodes to query by GetInfo and the time of each node's last query;
-- * the allocation table, src/pnp/db.rs, in Pnp.Db, with the hexadecimal texts in Pnp.Hex. The
--   SQLite engine under it is the interface Pnp.Sqlite: the statements that the code issues, any of
--   which may fail, and what SQLite documents of them. Pnp.Memory is an engine that meets it, and
--   Pnp.Open is `open`;
-- * the state of a transport's worker, src/transport/mod.rs, in Transport.State: `WorkerState` and
--   its methods. What a method sends on a reply channel is part of its result;
-- * the four workers, src/transport/udp.rs, can_socketcan.rs, serial.rs and can_gsusb.rs, in
--   Transport.Udp, Socketcan, Serial and Gsusb.Worker: Commands is `handle_command`, Requests the
--   GetInfo requests and timeouts, Transfers the transfer handler, Loop the loop of
--   `run_worker`, and Start `run_worker` from its configuration on, with what it shares in
--   Transport.Startup. The Canadensis node that a worker drives is the interface in
--   Transport.Worker; Serial.Port is the byte driver of serial.rs;
-- * the gs_usb device, src/transport/can_gsusb.rs, in Transport.Gsusb.Frame (`encode_frame`,
--   `decode_frame`), Transport.Gsusb.Bittiming (`compute_bittiming`), Transport.Gsusb.Interfaces
--   (`find_gsusb_interface`) and Transport.Gsusb.Driver (`GsUsbDriver`: its requests, `open`, `drop`,
--   `transmit` and `receive`). The USB library under it is the interface Transport.Gsusb.Usb, with
--   an account of the control writes that devices accepted;
-- * the handles by which commands reach a worker, and the start of the configured transports,
--   src/transport/mod.rs, in Transport.Handle and Transport.Manager;
-- * the registry of the operator's commands, src/commands/mod.rs, in Commands.Registry; the commands
--   nodes.rs, pnp.rs, diag.rs and get_info.rs of src/commands in Commands.Nodes, PnpList, Diag and
--   GetInfo: `execute` is a function of the handles, each with what becomes of the command's call on
--   it, and of the arguments. Commands.Defaults is `register_defaults`, with hello.rs and help.rs;
-- * the operator's loop, src/cli.rs, with the help text, src/commands/help.rs, in Cli;
-- * the configuration, src/config.rs, in Config, and src/main.rs, src/daemon.rs
--   and `run` of src/cli.rs in Service.
-- Theorems stand in child modules of the modules that they are about, and what concerns all four
-- workers in Transport.Replies, Answers, Agreement, Listing and Lifecycle. Tests runs the
-- definitions on samples.
--
-- A worker owns an allocator, and the allocator a connection. The loop takes commands, times
-- requests out, sends the allocator's next query, and hands each transfer that arrives to the
-- handler, which calls the allocator and the state. An environment gives each round its commands and
-- the clock's readings, and the interfaces give every result of the outside, errors included.
--
-- Numbers: machine integers are natural numbers with the casts and wraps of the code written out;
-- an `i64` column is an integer of Common.Int. The wraps are those of a release build: in a debug
-- build `compute_bittiming` panics instead where the count of quanta or the rounded prescaler
-- overflows. Times are nanoseconds of one monotonic clock. Loops count what they run over:
-- `next_free_id` the candidates that its range holds, and `compute_bittiming` those of its ranges.
-- Only printing a number in decimals takes fuel, the number
-- itself, which is at least the count of its digits less one. A run of a worker is a list of rounds
-- of any length.
--
-- Not modelled: logging; threads and tasks, whose interleaving is the order of a worker's rounds;
-- signals, systemd and the program's own command line. A message's bytes are parsed by parameters of
-- the interface.
pub mod Common
pub mod Cli
pub mod Commands
pub mod Config
pub mod Pnp
pub mod Tests
pub mod Transport
pub mod Service
