-- ===== src/Tests/Samples.antt =====
-- The allocator that the tests run: the local node has the ID 2 of eight, over an empty table.
use cyphal_service.Common.{
  All, ℕ, ◌≡◌, refl, none, some, List, [], ◌∷◌, arith, text_eq, ◌<◌, ◌^◌, replicate,
}
use cyphal_service.Common.Int.{as_i64, as_u64}
use cyphal_service.Common.Map
use cyphal_service.Pnp.Hex.{bytes_to_hex, hex_digit, pad_hash, to_be_bytes}
use cyphal_service.Pnp.Sqlite.{Row, stamped}
use cyphal_service.Pnp.Db
use cyphal_service.Pnp.Db.{static_row}
use cyphal_service.Pnp.Memory.Rows
use cyphal_service.Pnp.Memory.Laws
use cyphal_service.Pnp.Memory.Laws.{memory, memory_laws, memory-IsReliable, empty, MemoryTable}
use cyphal_service.Pnp.Allocator
use cyphal_service.Pnp.Allocator.{AllocationDataV1, AllocationDataV2, PnpAllocator}
use cyphal_service.Pnp.Allocator.Outcome.{Unclaimed, v1_id, v2_id}
use cyphal_service.Pnp.Allocator.HashStability.{HasHash}
use cyphal_service.Pnp.Allocator.UniqueIdStability.{HasUid, IsReal}
use cyphal_service.Pnp.Allocator.NodeIds.{IsNarrow, IsNarrowCall}
use cyphal_service.Pnp.Allocator.History.{Call, asks_v2, beats, pops, resolves, step, run}
use cyphal_service.Pnp.Allocator.Serves.{IsAvailable}

abbrev pub start : PnpAllocator MemoryTable
start = Allocator.new memory empty 2 8

-- Bytes that begin with seven, and so are no placeholder.
abbrev pub sensor_uid : List ℕ
sensor_uid = 7 ∷ replicate 15 1

abbrev pub motor_uid : List ℕ
motor_uid = 9 ∷ replicate 15 1

abbrev pub sensor_v2 : AllocationDataV2
sensor_v2 = record { node_id = 65535; unique_id = sensor_uid }

abbrev pub motor_v2 : AllocationDataV2
motor_v2 = record { node_id = 65535; unique_id = motor_uid }

-- A hash whose top bit is set, so that its column is negative.
abbrev pub sensor_v1 : AllocationDataV1
sensor_v1 = record { unique_id_hash = 0xF00000000000ABCD; allocated_node_id = [] }

pub start_answers_v1 : v1_id (Allocator.on_allocation_v1 memory start sensor_v1 none).0 ≡ some 1
unfolding Allocator.new Allocator.on_allocation_v1 Allocator.allocate_v1 Db.find_by_hash
    Db.next_free_id Db.free_from Db.contains Db.count_or_one Db.insert_v1 Db.record_static_node
    Rows.row_at Rows.first_match Laws.insert_checked Rows.insert_row as_i64
start_answers_v1 = refl

pub start_answers_v2 : v2_id (Allocator.on_allocation_v2 memory start sensor_v2 none).0 ≡ some 1
unfolding Allocator.new Allocator.on_allocation_v2 Db.find_by_unique_id Db.next_free_id Db.free_from
    Db.contains Db.count_or_one Db.insert_v2 Db.record_static_node Rows.row_at Rows.first_match
    Laws.insert_checked Rows.insert_row bytes_to_hex hex_digit text_eq
start_answers_v2 = refl

pub start_lacks_hash : Unclaimed (HasHash sensor_v1.unique_id_hash) (memory_laws.table start.db)
unfolding Allocator.new Db.record_static_node Rows.row_at Laws.insert_checked Rows.insert_row as_i64
start_lacks_hash j r at holds = ground arith

pub sensor-IsReal : IsReal sensor_uid
sensor-IsReal = record { bytes = omega arith; no_placeholder = λ e. cc }

pub start-IsAvailable : IsAvailable memory memory_laws start 3
unfolding Allocator.new Db.record_static_node Rows.row_at Laws.insert_checked Rows.insert_row
start-IsAvailable = (omega arith, omega arith, λ e. omega arith, refl)

pub start_lacks_uid : Unclaimed (HasUid sensor_uid) (memory_laws.table start.db)
unfolding Allocator.new Db.record_static_node Rows.row_at Laws.insert_checked Rows.insert_row
    bytes_to_hex hex_digit
start_lacks_uid j r at holds = ground arith

pub start_small : start.max_node_id < 2 ^ 16
unfolding Allocator.new
start_small = omega arith

abbrev pub local_row : Row
local_row = stamped (static_row 2) Rows.stamp

pub start_has_local : memory_laws.table start.db 2 ≡ some local_row
unfolding Allocator.new Db.record_static_node Rows.row_at Laws.insert_checked Rows.insert_row
start_has_local = refl

pub empty_table : memory_laws.table empty ≡ (λ i. none)
unfolding Rows.row_at
empty_table = refl

-- The node 1 was queried at the time 5, and stands in the queue.
abbrev pub queried : PnpAllocator MemoryTable
queried = record start { get_info_queue = 1 ∷ []; recently_queried = (1, 5) ∷ [] }

pub queried_at : Map.get 1 queried.recently_queried ≡ some 5
unfolding Map.get
queried_at = refl

pub start-IsNarrow : IsNarrow (memory_laws.table start.db)
unfolding Allocator.new Db.record_static_node Rows.row_at Laws.insert_checked Rows.insert_row
start-IsNarrow k r at = ground arith

-- A heartbeat of the node 1, its query, and a unique ID for the node 4.
abbrev pub quiet : List Call
quiet = beats 1 0 0 ∷ pops ∷ resolves 4 (some motor_uid) ∷ asks_v2 motor_v2 none ∷ beats 4 5 5 ∷ []

pub quiet_narrow : All IsNarrowCall quiet
quiet_narrow = (omega arith, (tt, (tt, (tt, (omega arith, tt)))))

pub quiet_serves_motor :
    v2_id
      (Allocator.on_allocation_v2 memory
        (run memory quiet (Allocator.on_allocation_v2 memory start sensor_v2 none).1)
        motor_v2
        none).0
    ≡ some 3
unfolding Allocator.new Allocator.on_allocation_v2 Allocator.on_heartbeat
    Allocator.pop_get_info_request Allocator.on_get_info_result run step Db.find_by_unique_id
    Db.next_free_id Db.free_from Db.contains Db.count_or_one Db.insert_v2 Db.record_static_node
    Db.find_by_node_id Db.needs_get_info Db.update_unique_id Rows.row_at Rows.first_match
    Laws.insert_checked Rows.insert_row Rows.update_row Laws.change Laws.put Map.get Map.insert
    bytes_to_hex hex_digit text_eq
quiet_serves_motor = refl

abbrev pub motor_v1 : AllocationDataV1
motor_v1 = record { unique_id_hash = 0xABCE; allocated_node_id = [] }

pub quiet_serves_motor_v1 :
    v1_id
      (Allocator.on_allocation_v1 memory
        (run memory quiet (Allocator.on_allocation_v1 memory start sensor_v1 none).1)
        motor_v1
        none).0
    ≡ some 5
unfolding Allocator.new Allocator.on_allocation_v1 Allocator.allocate_v1 Allocator.on_allocation_v2
    Allocator.on_heartbeat Allocator.pop_get_info_request Allocator.on_get_info_result run step
    Db.find_by_hash Db.find_by_unique_id Db.next_free_id Db.free_from Db.contains Db.count_or_one
    Db.insert_v1 Db.insert_v2 Db.record_static_node Db.find_by_node_id Db.needs_get_info
    Db.update_unique_id Rows.row_at Rows.first_match Laws.insert_checked Rows.insert_row
    Rows.update_row Laws.change Laws.put Map.get Map.insert bytes_to_hex hex_digit pad_hash
    to_be_bytes text_eq as_i64 as_u64
quiet_serves_motor_v1 = refl
