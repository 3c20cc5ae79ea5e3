-- ===== src/Pnp/Allocator.antt =====
-- src/pnp/allocator.rs: the allocator's state and its operations. The result of an operation is
-- paired with the new state. Times are nanoseconds of one monotonic clock; an operation that reads
-- the clock takes its readings as arguments.
pub mod Outcome
pub mod Serves
pub mod Rows
pub mod History
pub mod HashStability
pub mod UniqueIdStability
pub mod Reservation
pub mod Placeholders
pub mod Cooldown
pub mod NodeIds
pub mod Distinct
use cyphal_service.Common.{
  ℕ, ◌-◌, ◌*◌, ◌^◌, Bool, true, false, Option, none, some, List, [], ◌∷◌, ◌++◌, leb, if◌then◌else◌,
  is_some_and, Result, ok, err,
}
use cyphal_service.Common.Map
use cyphal_service.Common.Map.{Map}
use cyphal_service.Pnp.Sqlite.{Sqlite}
use cyphal_service.Pnp.Db
use cyphal_service.Pnp.Db.{AllocationEntry, needs_get_info}

-- GET_INFO_RETRY_COOLDOWN
abbrev pub get_info_retry_cooldown : ℕ
get_info_retry_cooldown = 60 * 10 ^ 9

-- The fields of `NodeIDAllocationData.1.0`; the second holds at most one node ID.
pub record AllocationDataV1 : Type 0 where
  pub unique_id_hash : ℕ
  pub allocated_node_id : List ℕ

-- The fields of `NodeIDAllocationData.2.0`.
pub record AllocationDataV2 : Type 0 where
  pub node_id : ℕ
  pub unique_id : List ℕ

pub record PnpAllocator (Conn : Type 0) : Type 0 where
  pub db : Conn
  pub local_node_id : ℕ
  pub max_node_id : ℕ
  pub get_info_queue : List ℕ
  pub recently_queried : Map ℕ

-- The cooldown has passed, or there was no query: `is_none_or(|t| t.elapsed() >= …)`.
abbrev pub is_cooled : Option ℕ → ℕ → Bool
is_cooled none now = true
is_cooled (some t) now = leb get_info_retry_cooldown (now - t)

module _ (sq : Sqlite) where
  -- `PnpAllocator::new`: a failure to reserve the local ID is only logged.
  unfoldable pub new : sq.Conn → ℕ → ℕ → PnpAllocator sq.Conn
  new db local_node_id max_node_id = record {
    db = (Db.record_static_node sq db local_node_id).1;
    local_node_id = local_node_id;
    max_node_id = max_node_id;
    get_info_queue = [];
    recently_queried = [];
  }

  -- The rest of an allocation after its INSERT: on an error nothing is returned.
  abbrev pub granted {ℓ} :
      {A : Type ℓ}
      → PnpAllocator sq.Conn
      → A
      → Result (Unit {0}) (List ℕ) × sq.Conn
      → Option A × PnpAllocator sq.Conn
  granted a answer (ok u, db') = (some answer, record a { db = db' })
  granted a answer (err e, db') = (none, record a { db = db' })

  abbrev pub next_free : PnpAllocator sq.Conn → Option ℕ
  next_free a = Db.next_free_id sq a.db (a.local_node_id ∷ []) a.max_node_id

  abbrev pub answer_v2 : AllocationDataV2 → ℕ → AllocationDataV2
  answer_v2 msg node_id = record { node_id = node_id; unique_id = msg.unique_id }

  unfoldable pub on_allocation_v2 :
      PnpAllocator sq.Conn
      → AllocationDataV2
      → Option ℕ
      → Option AllocationDataV2 × PnpAllocator sq.Conn
  on_allocation_v2 a msg (some source) = (none, a)
  on_allocation_v2 a msg none = elim (Db.find_by_unique_id sq a.db msg.unique_id) [
    | some existing ↦ (some (answer_v2 msg existing), a)
    | none ↦ elim (next_free a) [
      | none ↦ (none, a)
      | some new_id ↦ granted a (answer_v2 msg new_id) (Db.insert_v2 sq a.db new_id msg.unique_id)
    ]
  ]

  abbrev pub answer_v1 : AllocationDataV1 → ℕ → AllocationDataV1
  answer_v1 msg node_id = record {
    unique_id_hash = msg.unique_id_hash;
    allocated_node_id = node_id ∷ [];
  }

  -- A request, once it is known to name no node ID.
  unfoldable pub allocate_v1 :
      PnpAllocator sq.Conn → AllocationDataV1 → Option AllocationDataV1 × PnpAllocator sq.Conn
  allocate_v1 a msg = elim (Db.find_by_hash sq a.db msg.unique_id_hash) [
    | some existing ↦ (some (answer_v1 msg existing), a)
    | none ↦ elim (next_free a) [
      | none ↦ (none, a)
      | some new_id ↦
          granted a (answer_v1 msg new_id) (Db.insert_v1 sq a.db new_id msg.unique_id_hash)
    ]
  ]

  unfoldable pub on_allocation_v1 :
      PnpAllocator sq.Conn
      → AllocationDataV1
      → Option ℕ
      → Option AllocationDataV1 × PnpAllocator sq.Conn
  unfolding allocate_v1
  on_allocation_v1 a msg (some source) = (none, a)
  on_allocation_v1 a msg none = elim msg.allocated_node_id [
    | [] ↦ allocate_v1 a msg
    | i ∷ rest ↦ (none, a)
  ]

  -- `elapsed_at` is the reading of `t.elapsed()`, `now` that of the `Instant::now()` after it.
  unfoldable pub on_heartbeat : PnpAllocator sq.Conn → ℕ → ℕ → ℕ → PnpAllocator sq.Conn
  on_heartbeat a node_id elapsed_at now =
      let db' = (Db.record_static_node sq a.db node_id).1 in
      let needs_query = is_some_and (Db.find_by_node_id sq db' node_id) needs_get_info in
      let cooldown_elapsed = is_cooled (Map.get node_id a.recently_queried) elapsed_at in
      if needs_query
      then (if cooldown_elapsed
          then record a {
            db = db';
            get_info_queue = a.get_info_queue ++ node_id ∷ [];
            recently_queried = Map.insert node_id now a.recently_queried;
          }
          else record a { db = db' })
      else record a { db = db' }

  unfoldable pub pop_get_info_request : PnpAllocator sq.Conn → Option ℕ × PnpAllocator sq.Conn
  pop_get_info_request a = elim a.get_info_queue [
    | [] ↦ (none, a)
    | i ∷ rest ↦ (some i, record a { get_info_queue = rest })
  ]

  unfoldable pub on_get_info_result :
      PnpAllocator sq.Conn → ℕ → Option (List ℕ) → PnpAllocator sq.Conn
  on_get_info_result a node_id (some uid) = record a {
    db = (Db.update_unique_id sq a.db node_id uid).1;
  }
  on_get_info_result a node_id none = record a {
    recently_queried = Map.remove node_id a.recently_queried;
  }

  pub list_allocations : PnpAllocator sq.Conn → List AllocationEntry
  list_allocations a = Db.list_all sq a.db
