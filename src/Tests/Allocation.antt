-- ===== src/Tests/Allocation.antt =====
-- The theorems on the allocator, applied to the allocator of the samples.
use cyphal_service.Common.{
  ℕ, ◌≡◌, refl, ◌≢◌, none, some, List, [], ◌∷◌, arith, ◌≤◌, ◌<◌, ◌^◌, replicate, All,
}
use cyphal_service.Common.Int.{as_i64}
use cyphal_service.Common.Map
use cyphal_service.Pnp.Hex.{bytes_to_hex, pad_hash}
use cyphal_service.Pnp.Db
use cyphal_service.Pnp.Db.{v1_row, v2_row}
use cyphal_service.Pnp.Memory.Laws.{memory, memory_laws, memory-IsReliable, empty}
use cyphal_service.Pnp.Allocator
use cyphal_service.Pnp.Allocator.{answer_v1, answer_v2}
use cyphal_service.Pnp.Allocator.Outcome.{
  Outcome, v1_id, v2_id, on_allocation_v1-Outcome, on_allocation_v2-Outcome,
}
use cyphal_service.Pnp.Allocator.Serves.{
  IsEligible, on_allocation_v1-serves, on_allocation_v2-serves,
}
use cyphal_service.Pnp.Allocator.Rows.{Keeps, SameClaim}
use cyphal_service.Pnp.Allocator.History.{
  Call, asks_v1, asks_v2, beats, pops, resolves, run, run-Keeps,
}
use cyphal_service.Pnp.Allocator.HashStability.{v1_stable}
use cyphal_service.Pnp.Allocator.UniqueIdStability.{v2_stable, IsQuiet}
use cyphal_service.Pnp.Allocator.Reservation.{heartbeat_reserves, zero_uid_gets_local}
use cyphal_service.Pnp.Allocator.Distinct.{v1_distinct, v2_distinct}
use cyphal_service.Pnp.Allocator.Cooldown.{count, run-cooldown, IsCovered}
use cyphal_service.Pnp.Allocator.Placeholders.{resolved_not_queried}
use cyphal_service.Tests.Samples.{
  quiet, start-IsNarrow, quiet_narrow, quiet_serves_motor, motor_v1, quiet_serves_motor_v1, start,
  sensor_uid, motor_uid, sensor_v1, sensor_v2, motor_v2, start_answers_v1, start_answers_v2,
  start_lacks_hash, start_lacks_uid, sensor-IsReal, start-IsAvailable, start_small, local_row,
  start_has_local, empty_table, queried, queried_at,
}

-- A heartbeat of the node 1, its query, its answer, and requests by others.
abbrev busy : List Call
busy =
    beats 1 0 0
    ∷ pops
    ∷ resolves 1 (some motor_uid)
    ∷ asks_v2 motor_v2 none
    ∷ asks_v2 motor_v2 (some 5)
    ∷ asks_v1 sensor_v1 none
    ∷ beats 4 5 5
    ∷ []

two_small : 2 < 2 ^ 16
two_small = omega arith

quiet-IsQuiet : All (IsQuiet sensor_uid 1) quiet
quiet-IsQuiet = (tt, (tt, ((λ e. omega arith, omega arith, λ e. cc), (tt, (tt, tt)))))

covered : All (IsCovered 1 5) (pops ∷ beats 1 9 9 ∷ [])
covered = (tt, (λ e. omega arith, tt))

queued_once : count 1 queried.get_info_queue ≤ 1
queued_once = omega arith

on_allocation_v2-Outcome_example :
    Outcome memory memory_laws
      (λ i. record {
        node_id = i;
        unique_id_hex = bytes_to_hex sensor_uid;
        pseudo_unique_id = none;
      })
      (λ r. r.unique_id_hex ≡ some (bytes_to_hex sensor_uid))
      start
      (v2_id (Allocator.on_allocation_v2 memory start sensor_v2 none).0)
      (Allocator.on_allocation_v2 memory start sensor_v2 none).1
on_allocation_v2-Outcome_example = on_allocation_v2-Outcome memory memory_laws start sensor_v2 none

on_allocation_v1-Outcome_example :
    Outcome memory memory_laws
      (λ i. record {
        node_id = i;
        unique_id_hex = bytes_to_hex (pad_hash sensor_v1.unique_id_hash);
        pseudo_unique_id = some (as_i64 sensor_v1.unique_id_hash);
      })
      (λ r. r.pseudo_unique_id ≡ some (as_i64 sensor_v1.unique_id_hash))
      start
      (v1_id (Allocator.on_allocation_v1 memory start sensor_v1 none).0)
      (Allocator.on_allocation_v1 memory start sensor_v1 none).1
on_allocation_v1-Outcome_example = on_allocation_v1-Outcome memory memory_laws start sensor_v1 none

v1_stable_example :
    v1_id
      (Allocator.on_allocation_v1 memory
        (run memory busy (Allocator.on_allocation_v1 memory start sensor_v1 none).1)
        sensor_v1
        none).0
    ≡ some 1
v1_stable_example =
    v1_stable memory memory_laws memory-IsReliable start sensor_v1 1 busy start_small refl
      start_lacks_hash start_answers_v1

v2_stable_example :
    v2_id
      (Allocator.on_allocation_v2 memory
        (run memory quiet (Allocator.on_allocation_v2 memory start sensor_v2 none).1)
        sensor_v2
        none).0
    ≡ some 1
v2_stable_example =
    v2_stable memory memory_laws memory-IsReliable start sensor_v2 1 quiet start_small sensor-IsReal
      start_lacks_uid quiet-IsQuiet start_answers_v2

run-Keeps_example :
    Keeps SameClaim (memory_laws.table start.db) (memory_laws.table (run memory busy start).db)
run-Keeps_example = run-Keeps memory memory_laws busy start

on_allocation_v2-serves_example :
    (j : ℕ) × ((Allocator.on_allocation_v2 memory start sensor_v2 none).0
      ≡ some (record { node_id = j; unique_id = sensor_uid }))
    × IsEligible memory memory_laws start (λ r. r.unique_id_hex ≡ some (bytes_to_hex sensor_uid)) j
on_allocation_v2-serves_example =
    on_allocation_v2-serves memory memory_laws start memory-IsReliable sensor_v2 3 start-IsAvailable

on_allocation_v1-serves_example :
    (j : ℕ) × ((Allocator.on_allocation_v1 memory start sensor_v1 none).0
      ≡ some (record { unique_id_hash = sensor_v1.unique_id_hash; allocated_node_id = j ∷ [] }))
    × IsEligible memory memory_laws start
        (λ r. r.pseudo_unique_id ≡ some (as_i64 sensor_v1.unique_id_hash))
        j
on_allocation_v1-serves_example =
    on_allocation_v1-serves memory memory_laws start memory-IsReliable sensor_v1 3 refl
      start-IsAvailable

heartbeat_reserves_example :
    Db.next_free_id memory (run memory busy (Allocator.on_heartbeat memory start 1 0 0)).db [] 8
    ≢ some 1
heartbeat_reserves_example =
    heartbeat_reserves memory memory_laws memory-IsReliable start 1 0 0 busy [] 8

zero_uid_gets_local_example :
    v2_id
      (Allocator.on_allocation_v2 memory start
        (record { node_id = 65535; unique_id = replicate 16 0 })
        none).0
    ≡ some 2
zero_uid_gets_local_example =
    zero_uid_gets_local memory memory_laws memory-IsReliable empty 2 8 65535 two_small empty_table

run-cooldown_example :
    (Map.get 1 (run memory (pops ∷ beats 1 9 9 ∷ []) queried).recently_queried ≡ some 5)
    × (count 1 (run memory (pops ∷ beats 1 9 9 ∷ []) queried).get_info_queue ≤ 1)
run-cooldown_example =
    run-cooldown memory 1 5 1 (pops ∷ beats 1 9 9 ∷ []) queried covered queried_at queued_once

resolved_not_queried_example :
    (Allocator.on_heartbeat memory
      (Allocator.on_get_info_result memory start 2 (some sensor_uid))
      2
      0
      0).get_info_queue
    ≡ start.get_info_queue
resolved_not_queried_example =
    resolved_not_queried memory memory_laws memory-IsReliable start 2 0 0 sensor_uid local_row
      start_has_local sensor-IsReal

v1_distinct_example : ◌≢◌ {A = ℕ} 5 1
v1_distinct_example =
    v1_distinct memory memory_laws memory-IsReliable start sensor_v1 motor_v1 1 5 quiet start_small
      start-IsNarrow quiet_narrow (omega arith) (omega arith) (λ e. omega arith) start_lacks_hash
      start_answers_v1 quiet_serves_motor_v1

v2_distinct_example : ◌≢◌ {A = ℕ} 3 1
v2_distinct_example =
    v2_distinct memory memory_laws memory-IsReliable start sensor_v2 motor_v2 1 3 quiet start_small
      start-IsNarrow quiet_narrow sensor-IsReal (omega arith) (λ e. cc) start_lacks_uid
      quiet-IsQuiet start_answers_v2 quiet_serves_motor
