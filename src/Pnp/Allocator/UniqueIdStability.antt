-- ===== src/Pnp/Allocator/UniqueIdStability.antt =====
-- src/pnp/allocator.rs: a node that asks again with its unique ID is given the same node ID, as
-- long as GetInfo does not give the table another text for it.
use cyphal_service.Common.{
  ℕ, ◌<◌, ◌^◌, ◌≡◌, refl, sym, ap, ◌∙◌, subst, ◌≢◌, none, some, List, [], ◌∷◌, arith, Text, take,
  replicate, All,
}
use cyphal_service.Pnp.Hex.{
  IsByte, bytes_to_hex, bytes_to_hex_injective, pad_hash, pad_hash-IsByte, take-pad_hash,
  bytes_to_hex-zeros,
}
use cyphal_service.Pnp.Sqlite.{Row, Sqlite, IsSqlite, IsReliable, reads, Table}
use cyphal_service.Pnp.Db.{v1_row, v2_row, static_row, zero_hex}
use cyphal_service.Pnp.Db.Find.{find_by_unique_id-some, find_by_unique_id-found}
use cyphal_service.Pnp.Allocator.{AllocationDataV2, PnpAllocator, on_allocation_v2}
use cyphal_service.Pnp.Allocator.Outcome.{
  Outcome, refused, reused, allocated, Unclaimed, v2_id, on_allocation_v2-Outcome,
}
use cyphal_service.Pnp.Allocator.History.{
  Call, asks_v1, asks_v2, beats, pops, resolves, Effect, unchanged, inserts_v1, inserts_v2,
  reserves, rewrites, step, run, step-Effect,
}
use cyphal_service.Pnp.Allocator.Rows.{
  Sole, Sole-inserted, Sole-inserted_if_absent, Sole-updated_ne, inserted-Sole,
}

-- The row carries the text of the unique ID.
abbrev pub HasUid : List ℕ → Row → Type 0
HasUid uid r = r.unique_id_hex ≡ some (bytes_to_hex uid)

-- Sixteen bytes that are no placeholder: the placeholders begin with ten zeros.
pub record IsReal (uid : List ℕ) : Type 0 where
  pub bytes : All IsByte uid
  pub no_placeholder : take 10 uid ≢ replicate 10 0

-- GetInfo brings no text for the ID `i`, nor the unique ID at another ID.
abbrev pub IsQuiet : List ℕ → ℕ → Call → Type 0
IsQuiet uid i (asks_v1 msg source) = Unit {0}
IsQuiet uid i (asks_v2 msg source) = Unit {0}
IsQuiet uid i (beats k s now) = Unit {0}
IsQuiet uid i pops = Unit {0}
IsQuiet uid i (resolves k none) = Unit {0}
IsQuiet uid i (resolves k (some other)) = (k ≢ i) × All IsByte other × (other ≢ uid)

pub hash-ne-uid :
    (uid : List ℕ) (hash : ℕ) → IsReal uid → bytes_to_hex (pad_hash hash) ≢ bytes_to_hex uid
hash-ne-uid uid hash real e = real.no_placeholder (
    subst (λ xs. take 10 xs ≡ replicate 10 0)
      (bytes_to_hex_injective (pad_hash hash) uid (pad_hash-IsByte hash) real.bytes e)
      (take-pad_hash hash))

pub zeros-ne-uid : (uid : List ℕ) → IsReal uid → zero_hex ≢ bytes_to_hex uid
zeros-ne-uid uid real e = real.no_placeholder (
    subst (λ xs. take 10 xs ≡ replicate 10 0)
      (bytes_to_hex_injective (replicate 16 0) uid (omega arith) real.bytes
        (sym bytes_to_hex-zeros ∙ e))
      refl)

some_injective : {s t : Text} → some s ≡ some t → s ≡ t
some_injective e = cc

module _ (sq : Sqlite) (laws : IsSqlite sq) (reliable : IsReliable sq laws) where
  open laws use {table}

  module _ (uid : List ℕ) (real : IsReal uid) where
    Effect-Sole_uid :
        (i : ℕ) (call : Call) (t t' : Table)
        → IsQuiet uid i call
        → Sole (HasUid uid) i t
        → Effect sq laws call t t'
        → Sole (HasUid uid) i t'
    Effect-Sole_uid i call t t' quiet s (unchanged e) = subst (Sole (HasUid uid) i) (sym e) s
    Effect-Sole_uid i call t t' quiet s (inserts_v1 msg _ k ts _ free fresh e) =
        subst (Sole (HasUid uid) i) (sym e) (
          Sole-inserted (HasUid uid) i t s (v1_row k msg.unique_id_hash) ts free
            (λ same. hash-ne-uid uid msg.unique_id_hash real (some_injective same)))
    Effect-Sole_uid i call t t' quiet s (inserts_v2 msg _ k ts _ free fresh e) =
        subst (Sole (HasUid uid) i) (sym e) (
          Sole-inserted (HasUid uid) i t s (v2_row k msg.unique_id) ts free
            (λ same. fresh (reads reliable) i s.row s.at (s.holds ∙ sym same)))
    Effect-Sole_uid i call t t' quiet s (reserves k ts e) = subst (Sole (HasUid uid) i) (sym e) (
        Sole-inserted_if_absent (HasUid uid) i t s (static_row k) ts
          (λ same. zeros-ne-uid uid real (some_injective same)))
    Effect-Sole_uid i call t t' quiet s (rewrites k other this e) =
        let (far, bytes, different) = subst (IsQuiet uid i) this quiet in
        subst (Sole (HasUid uid) i) (sym e) (
          Sole-updated_ne (HasUid uid) i t s (bytes_to_hex other) k far (λ r same.
            different (bytes_to_hex_injective other uid bytes real.bytes (some_injective same))))

    pub run-Sole_uid :
        (i : ℕ) (calls : List Call) (a : PnpAllocator sq.Conn)
        → All (IsQuiet uid i) calls
        → Sole (HasUid uid) i (table a.db)
        → Sole (HasUid uid) i (table (run sq calls a).db)
    unfolding run
    run-Sole_uid i [] a quiet s = s
    run-Sole_uid i (call ∷ calls) a quiet s =
        run-Sole_uid i calls (step sq call a) quiet.1
          (Effect-Sole_uid i call _ _ quiet.0 s (step-Effect sq laws call a))

  Sole-answer_v2 :
      (a : PnpAllocator sq.Conn) (msg : AllocationDataV2) (i : ℕ)
      → i < 2 ^ 16
      → Sole (HasUid msg.unique_id) i (table a.db)
      → v2_id (on_allocation_v2 sq a msg none).0 ≡ some i
  unfolding on_allocation_v2
  Sole-answer_v2 a msg i small s =
      let (j, found) =
        find_by_unique_id-found sq laws a.db (reads reliable) msg.unique_id i s.row s.at s.holds in
      let (r, same, at, holds) = find_by_unique_id-some sq laws a.db msg.unique_id j found in
      let e : r.node_id ≡ i = s.only r.node_id r at holds in
      let e' : j ≡ i = omega arith in rw (found, on_allocation_v2) (ap (λ n. some n) e')

  pub allocated-Sole_uid :
      (a a' : PnpAllocator sq.Conn) (uid : List ℕ) (i : ℕ)
      → a.max_node_id < 2 ^ 16
      → Unclaimed (HasUid uid) (table a.db)
      → Outcome sq laws (λ k. v2_row k uid) (HasUid uid) a (some i) a'
      → Sole (HasUid uid) i (table a'.db) × (i < 2 ^ 16)
  allocated-Sole_uid a a' uid i small new (refused e _) = absurd (cc)
  allocated-Sole_uid a a' uid i small new (reused r _ at holds _) =
      absurd (new r.node_id r at holds)
  allocated-Sole_uid a a' uid i small new (allocated k ts e low high _ free _ after) =
      let e' : k ≡ i = ground arith in
      (
        subst (λ n. Sole (HasUid uid) n (table a'.db)) e'
            (rw after (inserted-Sole (HasUid uid) (v2_row k uid) ts (table a.db) new refl)),
        omega arith,
      )

  -- On a reliable engine, with a maximum below 2 ^ 16: once an anonymous request with a unique ID
  -- that is no placeholder and that no row carried has been answered with an ID, any later such
  -- request with it is answered with the same ID, whatever calls come between, as long as GetInfo
  -- brings no unique ID for that node ID, nor this unique ID for another.
  pub v2_stable :
      (a : PnpAllocator sq.Conn) (msg : AllocationDataV2) (i : ℕ) (calls : List Call)
      → a.max_node_id < 2 ^ 16
      → IsReal msg.unique_id
      → Unclaimed (HasUid msg.unique_id) (table a.db)
      → All (IsQuiet msg.unique_id i) calls
      → v2_id (on_allocation_v2 sq a msg none).0 ≡ some i
      → v2_id (on_allocation_v2 sq (run sq calls (on_allocation_v2 sq a msg none).1) msg none).0
        ≡ some i
  v2_stable a msg i calls small real new quiet answered =
      let first = on_allocation_v2 sq a msg none in
      let (sole, below) = allocated-Sole_uid a first.1 msg.unique_id i small new (
        subst
          (λ o. Outcome sq laws (λ k. v2_row k msg.unique_id) (HasUid msg.unique_id) a o first.1)
          answered (on_allocation_v2-Outcome sq laws a msg none)) in
      Sole-answer_v2 (run sq calls first.1) msg i below
        (run-Sole_uid msg.unique_id real i calls first.1 quiet sole)
