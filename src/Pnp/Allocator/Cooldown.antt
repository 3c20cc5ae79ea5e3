-- ===== src/Pnp/Allocator/Cooldown.antt =====
-- src/pnp/allocator.rs: a node that is heard often is not queried often.
use cyphal_service.Common.{
  ℕ, ◌+◌, ◌≤◌, ◌<◌, ◌≡◌, ◌≢◌, none, some, List, [], ◌∷◌, ◌++◌, arith, ◌==◌, if◌then◌else◌, All,
}
use cyphal_service.Common.Map
use cyphal_service.Common.Map.{get-insert, get-remove}
use cyphal_service.Pnp.Sqlite.{Sqlite}
use cyphal_service.Pnp.Allocator.{
  PnpAllocator, on_heartbeat, on_allocation_v1, allocate_v1, on_allocation_v2, pop_get_info_request,
  on_get_info_result, get_info_retry_cooldown,
}
use cyphal_service.Pnp.Allocator.History.{Call, asks_v1, asks_v2, beats, pops, resolves, step, run}

-- How often an ID stands in the queue.
abbrev pub count : ℕ → List ℕ → ℕ
count i [] = 0
count i (x ∷ xs) = (if x == i then 1 else 0) + count i xs

-- A call that the cooldown of the node `i`, queried at `t`, covers: no failed query of that node,
-- and no heartbeat of it once the cooldown has passed.
abbrev pub IsCovered : ℕ → ℕ → Call → Type 0
IsCovered i t (asks_v1 msg source) = Unit {0}
IsCovered i t (asks_v2 msg source) = Unit {0}
IsCovered i t (beats k s now) = k ≡ i → s < t + get_info_retry_cooldown
IsCovered i t pops = Unit {0}
IsCovered i t (resolves k none) = k ≢ i
IsCovered i t (resolves k (some uid)) = Unit {0}

-- The node was queried at `t`, and stands in the queue at most as often as `n`.
abbrev Quiet : {C : Type 0} → ℕ → ℕ → ℕ → PnpAllocator C → Type 0
Quiet i t n a = (Map.get i a.recently_queried ≡ some t) × (count i a.get_info_queue ≤ n)

count-append_one : (i j : ℕ) (xs : List ℕ) → count i (xs ++ j ∷ []) ≡ count i xs + count i (j ∷ [])
count-append_one i j [] = omega arith
count-append_one i j (x ∷ xs) = omega (arith, count-append_one i j xs)

module _ (sq : Sqlite) (i t n : ℕ) where
  step-Quiet :
      (call : Call) (a : PnpAllocator sq.Conn)
      → IsCovered i t call
      → Quiet i t n a
      → Quiet i t n (step sq call a)
  unfolding step on_allocation_v1 allocate_v1 on_allocation_v2 on_heartbeat pop_get_info_request
      on_get_info_result
  step-Quiet (asks_v1 msg source) a c q = ground arith
  step-Quiet (asks_v2 msg none) a c q = ground arith
  step-Quiet (asks_v2 msg (some s)) a c q = q
  step-Quiet (beats k s now) a c q =
      ground (arith, get-insert k i now a.recently_queried, count-append_one i k a.get_info_queue)
  step-Quiet pops a c q = ground arith
  step-Quiet (resolves k none) a c q = ground (arith, get-remove k i a.recently_queried)
  step-Quiet (resolves k (some uid)) a c q = q

  -- While a node's cooldown lasts, no sequence of calls makes it stand in the GetInfo queue more
  -- often, nor changes the time of its query, unless its query fails: the calls hold no failed
  -- result for it, and its heartbeats read the clock before the cooldown has passed.
  pub run-cooldown :
      (calls : List Call) (a : PnpAllocator sq.Conn)
      → All (IsCovered i t) calls
      → Map.get i a.recently_queried ≡ some t
      → count i a.get_info_queue ≤ n
      → (Map.get i (run sq calls a).recently_queried ≡ some t)
        × (count i (run sq calls a).get_info_queue ≤ n)
  unfolding run
  run-cooldown [] a covered queried few = (queried, few)
  run-cooldown (call ∷ calls) a covered queried few =
      let (queried', few') = step-Quiet call a covered.0 (queried, few) in
      run-cooldown calls (step sq call a) covered.1 queried' few'
