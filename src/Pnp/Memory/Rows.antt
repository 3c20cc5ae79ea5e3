-- ===== src/Pnp/Memory/Rows.antt =====
-- The rows of the table in memory, and the statements on them.
use cyphal_service.Common.{
  ℕ, suc, ◌≤◌, ◌≡◌, refl, true, false, Option, none, some, List, [], ◌∷◌, arith, ltb, ◌==◌,
  if◌then◌else◌, is_some, Text, text,
}
use cyphal_service.Pnp.Sqlite.{Row, Where, matches, Table, with_hex, updated}

-- The node IDs rise, from `n` on.
abbrev pub Ascending : ℕ → List Row → Type 0
Ascending n [] = Unit {0}
Ascending n (r ∷ rs) = (n ≤ r.node_id) × Ascending (suc r.node_id) rs

unfoldable pub row_at : List Row → Table
row_at [] i = none
row_at (r ∷ rs) i = if r.node_id == i then some r else row_at rs i

unfoldable pub first_match : List Row → Where → Option Row
first_match [] w = none
first_match (r ∷ rs) w = if matches w r then some r else first_match rs w

-- At its place in the order; a row with the same ID is kept.
unfoldable pub insert_row : Row → List Row → List Row
insert_row n [] = n ∷ []
insert_row n (r ∷ rs) =
    let later = r ∷ insert_row n rs in
    if ltb n.node_id r.node_id
    then n ∷ r ∷ rs
    else (if n.node_id == r.node_id then r ∷ rs else later)

unfoldable pub update_row : Text → ℕ → List Row → List Row
update_row h i [] = []
update_row h i (r ∷ rs) = (if r.node_id == i then with_hex h r else r) ∷ update_row h i rs

abbrev pub stamp : Option Text
stamp = some (text "2024-01-01 00:00:00")

pub row_at-below : (n i : ℕ) (rs : List Row) → Ascending n rs → suc i ≤ n → row_at rs i ≡ none
unfolding row_at
row_at-below n i [] a h = refl
row_at-below n i (r ∷ rs) a h = ground (arith, row_at-below (suc r.node_id) i rs a.1)

pub Ascending-mono : (m n : ℕ) (rs : List Row) → m ≤ n → Ascending n rs → Ascending m rs
Ascending-mono m n [] h a = tt
Ascending-mono m n (r ∷ rs) h a = (omega arith, a.1)

pub insert_row-Ascending :
    (m : ℕ) (n : Row) (rs : List Row)
    → m ≤ n.node_id
    → Ascending m rs
    → Ascending m (insert_row n rs)
unfolding insert_row
insert_row-Ascending m n [] h a = (h, tt)
insert_row-Ascending m n (r ∷ rs) h a =
    ground (arith, insert_row-Ascending (suc r.node_id) n rs, a.1)

pub update_row-Ascending :
    (m : ℕ) (h : Text) (i : ℕ) (rs : List Row) → Ascending m rs → Ascending m (update_row h i rs)
unfolding update_row
update_row-Ascending m h i [] a = tt
update_row-Ascending m h i (r ∷ rs) a =
    ground (arith, update_row-Ascending (suc r.node_id) h i rs a.1)

pub row_at-key : (rs : List Row) (i : ℕ) (r : Row) → row_at rs i ≡ some r → r.node_id ≡ i
unfolding row_at
row_at-key [] i r e = cc
row_at-key (s ∷ rs) i r e = ground (arith, row_at-key rs i r)

pub row_at-insert_row :
    (m : ℕ) (n : Row) (rs : List Row) (i : ℕ)
    → Ascending m rs
    → row_at (insert_row n rs) i ≡ (
        if is_some (row_at rs i)
        then row_at rs i
        else (if n.node_id == i then some n else row_at rs i))
unfolding row_at insert_row
row_at-insert_row m n [] i a = ground arith
row_at-insert_row m n (r ∷ rs) i a =
    ground
      (arith, row_at-insert_row (suc r.node_id) n rs i a.1, row_at-below (suc r.node_id) i rs a.1)

pub row_at-update_row :
    (h : Text) (i : ℕ) (rs : List Row) (j : ℕ)
    → row_at (update_row h i rs) j ≡ updated h i (row_at rs) j
unfolding row_at update_row
row_at-update_row h i [] j = ground arith
row_at-update_row h i (r ∷ rs) j = ground (arith, row_at-update_row h i rs j)

pub first_match-hit :
    (m : ℕ) (rs : List Row) (w : Where) (r : Row)
    → Ascending m rs
    → first_match rs w ≡ some r
    → (row_at rs r.node_id ≡ some r) × (matches w r ≡ true) × (m ≤ r.node_id)
unfolding row_at first_match
first_match-hit m [] w r a e = cc
first_match-hit m (s ∷ rs) w r a e = ground (arith, first_match-hit (suc s.node_id) rs w r a.1)

pub first_match-miss :
    (rs : List Row) (w : Where) (i : ℕ) (r : Row)
    → first_match rs w ≡ none
    → row_at rs i ≡ some r
    → matches w r ≡ false
unfolding row_at first_match
first_match-miss [] w i r e h = cc
first_match-miss (s ∷ rs) w i r e h = ground (arith, first_match-miss rs w i r)
