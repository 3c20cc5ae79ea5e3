-- ===== src/Transport/Startup.antt =====
-- src/transport: what the four `run_worker` functions do alike between the node's creation and the
-- loop, and `make_node_info` and `SystemClock` of src/transport/mod.rs.
use cyphal_service.Common.{
  ℕ, ◌+◌, ◌-◌, ◌^◌, ◌/◌, ◌%◌, Bool, true, false, Option, none, some, List, [], ◌∷◌, ◌++◌, ltb,
  if◌then◌else◌, take, Text, text, ok, err,
}
use cyphal_service.Config.{effective_pnp_db_path}
use cyphal_service.Pnp.Sqlite.{Sqlite}
use cyphal_service.Pnp.Open.{Files, open_db}
use cyphal_service.Transport.Worker.{Cyphal}

infixl 5 ◌>>=◌
-- Where a worker returns early.
abbrev pub ◌>>=◌ {ℓ κ} : {A : Type ℓ} {B : Type κ} → Option A → (A → Option B) → Option B
none >>= f = none
some a >>= f = f a

-- A node ID that the transport can have.
abbrev pub checked : (ℕ → Bool) → ℕ → Option ℕ
checked is_node_id n = if is_node_id n then some n else none

-- The bytes of a character in UTF-8.
abbrev pub utf8 : ℕ → List ℕ
utf8 c =
    if ltb c 0x80
    then c ∷ []
    else (if ltb c 0x800
        then (0xC0 + c / 0x40) ∷ (0x80 + c % 0x40) ∷ []
        else (if ltb c 0x10000
            then (0xE0 + c / 0x1000) ∷ (0x80 + c / 0x40 % 0x40) ∷ (0x80 + c % 0x40) ∷ []
            else (0xF0 + c / 0x40000)
              ∷ (0x80 + c / 0x1000 % 0x40)
              ∷ (0x80 + c / 0x40 % 0x40)
              ∷ (0x80 + c % 0x40)
              ∷ []))

-- `String::bytes`.
unfoldable pub bytes : Text → List ℕ
bytes [] = []
bytes (c ∷ cs) = utf8 c ++ bytes cs

-- The fields of a GetInfo response that are set.
pub record NodeInfo : Type 0 where
  pub protocol_version : ℕ × ℕ
  pub hardware_version : ℕ × ℕ
  pub software_version : ℕ × ℕ
  pub software_vcs_revision_id : ℕ
  pub unique_id : List ℕ
  pub name : List ℕ

-- `random` is `rand::random()`.
unfoldable pub make_node_info : Text → List ℕ → NodeInfo
unfolding bytes
make_node_info transport_name random = record {
  protocol_version = (1, 0);
  hardware_version = (0, 0);
  software_version = (0, 1);
  software_vcs_revision_id = 0;
  unique_id = random;
  name = take 50 (bytes (text "org.cyphal_service." ++ transport_name));
}

-- The calls of a Canadensis node that set it up. Results that the workers only log are left out.
pub record Registration (net : Cyphal) : Type 0 where
  -- A subject, the size of its payloads, and a timeout in milliseconds.
  pub subscribe_message : net.Node → ℕ → ℕ → ℕ → net.Node
  -- A service, a timeout in milliseconds, and the size of its responses.
  pub start_sending_requests : net.Node → ℕ → ℕ → ℕ → Option net.Token × net.Node
  -- A subject and a timeout in milliseconds.
  pub start_publishing : net.Node → ℕ → ℕ → net.Node

-- `SystemClock::now`: the microseconds since the clock's start, as a `u32`. Times are nanoseconds.
unfoldable pub system_clock : ℕ → ℕ → ℕ
system_clock start now = (now - start) / 1000 % 2 ^ 32

-- What the loop starts from.
pub record Ready (net : Cyphal) (Conn : Type 0) : Type 0 where
  pub token : Option net.Token
  pub db : Option Conn
  pub node : net.Node

module _ (sq : Sqlite) (net : Cyphal) (files : Files sq.Conn) (calls : Registration net) where
  -- The subjects of the plug-and-play messages.
  unfoldable pub join_pnp : net.Node → net.Node
  join_pnp node =
      let node1 = calls.subscribe_message node net.pnp_v2_subject 18 5000 in
      let node2 = calls.subscribe_message node1 net.pnp_v1_subject 9 5000 in
      let node3 = calls.start_publishing node2 net.pnp_v2_subject 500 in
      calls.start_publishing node3 net.pnp_v1_subject 500

  -- The allocation database, if plug-and-play is enabled and the database opens.
  unfoldable pub open_allocator : Text → Bool → Option Text → net.Node → Option sq.Conn × net.Node
  unfolding join_pnp open_db
  open_allocator name false path node = (none, node)
  open_allocator name true path node = elim (open_db files (effective_pnp_db_path name path)) [
    | ok conn ↦ (some conn, join_pnp node)
    | err e ↦ (none, node)
  ]

  unfoldable pub prepare : Text → Bool → Option Text → net.Node → Ready net sq.Conn
  unfolding open_allocator
  prepare name enabled path node =
      let node1 = calls.subscribe_message node net.heartbeat_subject 7 2000 in
      let requester = calls.start_sending_requests node1 net.get_info_service 3000 432 in
      let allocator = open_allocator name enabled path requester.1 in
      record { token = requester.0; db = allocator.0; node = allocator.1 }
