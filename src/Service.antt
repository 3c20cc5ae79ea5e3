-- ===== src/Service.antt =====
-- src/main.rs, src/daemon.rs and `run` of src/cli.rs: how the program is run, and its background
-- task.
use cyphal_service.Common.{
  if◌then◌else◌, Bool, true, false, List, [], ◌∷◌, Text, text, Result, ok, err, ◌++◌,
}
use cyphal_service.Config.{AppConfig}
use cyphal_service.Transport.Handle.{TransportHandle}
use cyphal_service.Transport.Manager.{start_all}
use cyphal_service.Commands.Defaults.{Calls, register_defaults}
use cyphal_service.Cli.{Read, Output, printed, error_printed, handle_read}

-- What the program does once its arguments are parsed.
pub data Run : Type 0 where
  -- The message on the error stream, before the exit with code 1.
  configuration_error : Text → Run
  repl daemon : AppConfig → Run

-- From the flag `--foreground` and the result of `load_config`.
unfoldable pub main : Bool → Result AppConfig Text → Run
main foreground (err e) = configuration_error (text "Configuration error: " ++ e)
main false (ok config) = daemon config
main true (ok config) = repl config

-- What the background task waits for: a tick of its interval, or any change of the shutdown channel,
-- the loss of its sender included.
pub data Event : Type 0 where
  tick changed : Event

-- What `run_tasks` prints, and whether it has returned. The first tick is consumed before.
unfoldable pub run_tasks : List Event → List Text × Bool
run_tasks [] = ([], false)
run_tasks (changed ∷ events) = ([], true)
run_tasks (tick ∷ events) = let later = run_tasks events in (text "hello" ∷ later.0, later.1)

-- `cli::run`'s loop over what the editor reads, each read with what becomes of the calls that its
-- command makes on the handles.
unfoldable pub session : List TransportHandle → List (Calls × Read) → List Output × Bool
unfolding register_defaults handle_read
session hs [] = ([], false)
session hs ((calls, x) ∷ xs) =
    let now = handle_read (register_defaults [] hs calls) x in
    let later = session hs xs in if now.1 then now else (now.0 ++ later.0, later.1)

abbrev pub banner : List Output
banner =
    printed (text "cyphal_service – foreground mode")
    ∷ printed (text "Type 'help' for available commands, 'quit' or 'exit' to stop.")
    ∷ []

-- What `cli::run` prints, and whether the shutdown signal is sent. The editor may fail to start.
unfoldable pub foreground :
    Bool → AppConfig → Result (Unit {0}) Text → List (Calls × Read) → List Output × Bool
unfolding start_all session
foreground linux config (err e) reads =
    (banner ++ error_printed (text "REPL initialisation error: " ++ e) ∷ [], false)
foreground linux config (ok u) reads =
    let r = session (start_all linux config) reads in (banner ++ r.0, r.1)
