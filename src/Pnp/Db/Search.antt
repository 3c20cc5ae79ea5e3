-- ===== src/Pnp/Db/Search.antt =====
-- src/pnp/db.rs: what `next_free_id` finds.
use cyphal_service.Common.{
  ℕ, zero, suc, ◌+◌, ◌≤◌, ◌<◌, ◌≡◌, subst, ◌⊎◌, inl, inr, ◌≢◌, true, false, none, some, List, [],
  ◌∷◌, arith, ◌==◌, Bool-cases, Option-cases, Result-cases,
}
use cyphal_service.Pnp.Sqlite.{Row, Sqlite, IsSqlite, IsReadable}
use cyphal_service.Pnp.Db.{contains, count_or_one, free_from, next_free_id}

-- A candidate that the loop passes over.
abbrev IsSkipped : (sq : Sqlite) → sq.Conn → List ℕ → ℕ → Type 0
IsSkipped sq c reserved j = (contains reserved j ≡ true) ⊎ (count_or_one sq c j ≢ 0)

abbrev AllSkipped : (sq : Sqlite) → sq.Conn → List ℕ → ℕ → ℕ → Type 0
AllSkipped sq c reserved from to = (j : ℕ) → from ≤ j → j < to → IsSkipped sq c reserved j

module _ (sq : Sqlite) (c : sq.Conn) (reserved : List ℕ) where
  extend_skipped :
      (k to : ℕ)
      → IsSkipped sq c reserved k
      → AllSkipped sq c reserved (k + 1) to
      → AllSkipped sq c reserved k to
  extend_skipped k to here later j low high = elim (Bool-cases (k == j)) [
    | inl e ↦ subst (IsSkipped sq c reserved) (ground arith) here
    | inr e ↦ later j (ground arith) high
  ]

  none_skipped : (k : ℕ) → AllSkipped sq c reserved k k
  none_skipped k j low high = absurd (omega arith)

  abbrev FirstFrom : ℕ → ℕ → ℕ → Type 0
  FirstFrom rounds k i =
      (k ≤ i)
      × (i < k + rounds)
      × (contains reserved i ≡ false)
      × (count_or_one sq c i ≡ 0)
      × AllSkipped sq c reserved k i

  FirstFrom-later :
      (rounds k i : ℕ)
      → IsSkipped sq c reserved k
      → FirstFrom rounds (k + 1) i
      → FirstFrom (suc rounds) k i
  FirstFrom-later rounds k i here (low, high, free, empty, skipped) =
      (omega arith, omega arith, free, empty, extend_skipped k i here skipped)

  FirstFrom-here :
      (rounds k : ℕ)
      → contains reserved k ≡ false
      → count_or_one sq c k ≡ 0
      → FirstFrom (suc rounds) k k
  FirstFrom-here rounds k free empty = (omega arith, omega arith, free, empty, none_skipped k)

  -- The loop returns the first candidate that it does not skip.
  free_from-some :
      (rounds k i : ℕ) → free_from sq c reserved rounds k ≡ some i → FirstFrom rounds k i
  unfolding free_from
  free_from-some zero k i h = cc
  free_from-some (suc rounds) k i h = elim (Bool-cases (contains reserved k)) [
    | inl held ↦
        FirstFrom-later rounds k i (inl held) (free_from-some rounds (k + 1) i (ground arith))
    | inr open_ ↦ elim (Bool-cases (count_or_one sq c k == 0)) [
      | inl free ↦
          subst (FirstFrom (suc rounds) k) (ground arith)
            (FirstFrom-here rounds k open_ (ground arith))
      | inr taken ↦
          FirstFrom-later rounds k i (inr (ground arith))
            (free_from-some rounds (k + 1) i (ground arith))
    ]
  ]

  -- It returns nothing only when it skips them all.
  free_from-none :
      (rounds k : ℕ)
      → free_from sq c reserved rounds k ≡ none
      → AllSkipped sq c reserved k (k + rounds)
  unfolding free_from
  free_from-none zero k h j low high = absurd (omega arith)
  free_from-none (suc rounds) k h j low high = elim (Bool-cases (contains reserved k)) [
    | inl held ↦ later (inl held) (free_from-none rounds (k + 1) (ground arith)) j low high
    | inr open_ ↦ elim (Bool-cases (count_or_one sq c k == 0)) [
      | inl free ↦ absurd (ground arith)
      | inr taken ↦
          later (inr (ground arith)) (free_from-none rounds (k + 1) (ground arith)) j low high
    ]
  ]
    where
      later :
          IsSkipped sq c reserved k
          → AllSkipped sq c reserved (k + 1) (k + 1 + rounds)
          → AllSkipped sq c reserved k (k + suc rounds)
      later here rest =
          extend_skipped k (k + suc rounds) here (λ i from to. rest i from (omega arith))

module _ (sq : Sqlite) (laws : IsSqlite sq) where
  open laws use {table, count_rows}

  -- A count of zero is never a failure: the ID has no row.
  pub count_or_one-zero : (c : sq.Conn) (i : ℕ) → count_or_one sq c i ≡ 0 → table c i ≡ none
  unfolding count_or_one
  count_or_one-zero c i h = elim (Result-cases (sq.select_count c i)) [
    | inl (n, e) ↦ ground (arith, count_rows c i n e)
    | inr (w, e) ↦ absurd (ground arith)
  ]

  count_or_one-ne_zero :
      IsReadable sq
      → (c : sq.Conn) (i : ℕ) → count_or_one sq c i ≢ 0
      → (r : Row) × (table c i ≡ some r)
  unfolding count_or_one
  count_or_one-ne_zero readable c i h =
      let (n, e) = readable.count_total c i in
      elim (Option-cases (table c i)) [
        | inl empty ↦ absurd (ground (arith, count_rows c i n e))
        | inr found ↦ found
      ]

  IsSkipped-taken :
      IsReadable sq
      → (c : sq.Conn) (reserved : List ℕ) (j : ℕ) → contains reserved j ≡ false
      → IsSkipped sq c reserved j
      → (r : Row) × (table c j ≡ some r)
  IsSkipped-taken readable c reserved j free (inl held) = absurd (ground arith)
  IsSkipped-taken readable c reserved j free (inr taken) = count_or_one-ne_zero readable c j taken

  -- An ID that `next_free_id` returns lies between 1 and the maximum, is not reserved and has no
  -- row, also when reads of the table fail.
  pub next_free_id-free :
      (c : sq.Conn) (reserved : List ℕ) (max_id i : ℕ)
      → next_free_id sq c reserved max_id ≡ some i
      → (1 ≤ i) × (i ≤ max_id) × (contains reserved i ≡ false) × (table c i ≡ none)
  unfolding next_free_id
  next_free_id-free c reserved max_id i h =
      let (low, high, free, empty, skipped) = free_from-some sq c reserved max_id 1 i h in
      (low, omega arith, free, count_or_one-zero c i empty)

  -- On an engine whose reads succeed, an ID that `next_free_id` returns is the lowest that it could
  -- be: every lower one from 1 on that is not reserved has a row.
  pub next_free_id-lowest :
      IsReadable sq
      → (c : sq.Conn) (reserved : List ℕ) (max_id i : ℕ)
      → next_free_id sq c reserved max_id ≡ some i
      → (j : ℕ) → 1 ≤ j
      → j < i
      → contains reserved j ≡ false
      → (r : Row) × (table c j ≡ some r)
  unfolding next_free_id
  next_free_id-lowest readable c reserved max_id i h j low high free =
      let (_, _, _, _, skipped) = free_from-some sq c reserved max_id 1 i h in
      IsSkipped-taken readable c reserved j free (skipped j low high)

  -- On an engine whose reads succeed, `next_free_id` returns nothing only when every ID from 1 to
  -- the maximum is reserved or has a row.
  pub next_free_id-exhausted :
      IsReadable sq
      → (c : sq.Conn) (reserved : List ℕ) (max_id : ℕ) → next_free_id sq c reserved max_id ≡ none
      → (j : ℕ) → 1 ≤ j
      → j ≤ max_id
      → contains reserved j ≡ false
      → (r : Row) × (table c j ≡ some r)
  unfolding next_free_id
  next_free_id-exhausted readable c reserved max_id h j low high free =
      IsSkipped-taken readable c reserved j free
        (free_from-none sq c reserved max_id 1 h j low (omega arith))

pub contains-one : (i j : ℕ) → contains (j ∷ []) i ≡ false → i ≢ j
unfolding contains
contains-one i j h e = ground arith

pub ne-contains_one : (i j : ℕ) → i ≢ j → contains (j ∷ []) i ≡ false
unfolding contains
ne-contains_one i j h = ground arith
