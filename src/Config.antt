-- ===== src/Config.antt =====
-- src/config.rs: the configuration. `toml` and the file system are arguments of `load_config`; a
-- field's default is applied by the parser.
use cyphal_service.Common.{ℕ, Bool, Option, none, some, List, [], ◌++◌, Text, text, Result, ok, err}

pub data CanDriver : Type 0 where
  socketcan gsusb : CanDriver

pub record CanConfig : Type 0 where
  pub name : Text
  pub driver : CanDriver
  pub node_id : ℕ
  pub interface : Option Text
  pub usb_index : ℕ
  pub vid : Option Text
  pub pid : Option Text
  pub bitrate : ℕ
  pub fd : Bool
  pub pnp_enabled : Bool
  pub pnp_db_path : Option Text

pub record UdpConfig : Type 0 where
  pub name : Text
  pub node_id : ℕ
  pub interface : Text
  pub port : Option ℕ
  pub pnp_enabled : Bool
  pub pnp_db_path : Option Text

pub record SerialConfig : Type 0 where
  pub name : Text
  pub node_id : ℕ
  pub port : Text
  pub baud_rate : ℕ
  pub pnp_enabled : Bool
  pub pnp_db_path : Option Text

pub data TransportConfig : Type 0 where
  can : CanConfig → TransportConfig
  udp : UdpConfig → TransportConfig
  serial : SerialConfig → TransportConfig

pub record AppConfig : Type 0 where
  pub transports : List TransportConfig

-- The path's text.
abbrev pub effective_pnp_db_path : Text → Option Text → Text
effective_pnp_db_path name none = text "/var/lib/cyphal_service/" ++ name ++ text "-allocations.db"
effective_pnp_db_path name (some p) = p

-- `read_to_string` and `from_str` give errors as their displayed texts; a path is its text.
abbrev pub load_config :
    (Text → Result Text Text) → (Text → Result AppConfig Text) → Option Text → Result AppConfig Text
load_config read_to_string from_str none = ok (record { transports = [] })
load_config read_to_string from_str (some path) = elim (read_to_string path) [
  | err e ↦ err (text "Cannot read config " ++ path ++ text ": " ++ e)
  | ok content ↦ elim (from_str content) [
    | err e ↦ err (text "Config parse error in " ++ path ++ text ": " ++ e)
    | ok config ↦ ok config
  ]
]
