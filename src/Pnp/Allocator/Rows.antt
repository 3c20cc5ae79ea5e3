-- ===== src/Pnp/Allocator/Rows.antt =====
-- What the writing statements keep of a table's rows: facts about tables alone.
use cyphal_service.Common.{
  ℕ, ◌≡◌, refl, subst, inl, inr, ◌≢◌, Option, none, some, arith, ◌==◌, Bool-cases, Option-cases,
  Text,
}
use cyphal_service.Pnp.Sqlite.{
  Row, NewRow, Table, stamped, with_hex, inserted, inserted_if_absent, updated,
}

-- Every row is still there, related by `R` to what it was.
abbrev pub Keeps : (Row → Row → Type 0) → Table → Table → Type 0
Keeps R t t' = (i : ℕ) (r : Row) → t i ≡ some r → (r' : Row) × (t' i ≡ some r') × R r r'

-- The row's key, v1 hash and time are as they were.
pub record SameClaim (r r' : Row) : Type 0 where
  pub same_node_id : r'.node_id ≡ r.node_id
  pub same_hash : r'.pseudo_unique_id ≡ r.pseudo_unique_id
  pub same_ts : r'.ts ≡ r.ts

-- `i` is the one ID whose row satisfies `P`.
pub record Sole (P : Row → Type 0) (i : ℕ) (t : Table) : Type 0 where
  pub row : Row
  pub at : t i ≡ some row
  pub holds : P row
  pub only : (j : ℕ) (s : Row) → t j ≡ some s → P s → j ≡ i

pub SameClaim-refl : (r : Row) → SameClaim r r
SameClaim-refl r = record { same_node_id = refl; same_hash = refl; same_ts = refl }

SameClaim-with_hex : (h : Text) (r : Row) → SameClaim r (with_hex h r)
SameClaim-with_hex h r = record { same_node_id = refl; same_hash = refl; same_ts = refl }

pub Keeps-eq : (t t' : Table) → t' ≡ t → Keeps SameClaim t t'
Keeps-eq t t' same i r e = (r, rw same e, SameClaim-refl r)

pub Keeps-trans : (t u v : Table) → Keeps SameClaim t u → Keeps SameClaim u v → Keeps SameClaim t v
Keeps-trans t u v h k i r e =
    let (s, f, p) = h i r e in let (w, g, q) = k i s f in (w, g, ground arith)

pub Keeps-inserted :
    (n : NewRow) (ts : Option Text) (t : Table)
    → t n.node_id ≡ none
    → Keeps SameClaim t (inserted n ts t)
Keeps-inserted n ts t free i r e = (r, ground arith, SameClaim-refl r)

pub Keeps-inserted_if_absent :
    (n : NewRow) (ts : Option Text) (t : Table) → Keeps SameClaim t (inserted_if_absent n ts t)
Keeps-inserted_if_absent n ts t i r e = (r, ground arith, SameClaim-refl r)

pub Keeps-updated : (h : Text) (i : ℕ) (t : Table) → Keeps SameClaim t (updated h i t)
Keeps-updated h i t j r e = elim (Bool-cases (i == j)) [
  | inl here ↦ (with_hex h r, ground arith, SameClaim-with_hex h r)
  | inr there ↦ (r, ground arith, SameClaim-refl r)
]

module _ (P : Row → Type 0) (i : ℕ) (t : Table) (sole : Sole P i t) where
  pub Sole-inserted :
      (n : NewRow) (ts : Option Text)
      → t n.node_id ≡ none
      → ¬ P (stamped n ts)
      → Sole P i (inserted n ts t)
  Sole-inserted n ts free other = record {
    row = sole.row;
    at = ground (arith, sole.at);
    holds = sole.holds;
    only = λ j s e p. elim (Bool-cases (n.node_id == j)) [
      | inl here ↦ absurd (other (subst P (ground arith) p))
      | inr there ↦ sole.only j s (ground arith) p
    ];
  }

  pub Sole-inserted_if_absent :
      (n : NewRow) (ts : Option Text) → ¬ P (stamped n ts) → Sole P i (inserted_if_absent n ts t)
  Sole-inserted_if_absent n ts other = record {
    row = sole.row;
    at = ground (arith, sole.at);
    holds = sole.holds;
    only = λ j s e p. elim (Option-cases (t j)) [
      | inr (r, there) ↦ sole.only j s (ground arith) p
      | inl free ↦ elim (Bool-cases (n.node_id == j)) [
        | inl here ↦ absurd (other (subst P (ground arith) p))
        | inr there ↦ absurd (ground arith)
      ]
    ];
  }

  -- A rewritten text changes nothing where `P` does not look at the text.
  pub Sole-updated :
      (h : Text) (k : ℕ)
      → ((r : Row) → P r → P (with_hex h r))
      → ((r : Row) → P (with_hex h r) → P r)
      → Sole P i (updated h k t)
  Sole-updated h k there back = elim (Bool-cases (k == i)) [
    | inl here ↦ record {
      row = with_hex h sole.row;
      at = ground (arith, sole.at);
      holds = there sole.row sole.holds;
      only = only_updated;
    }
    | inr other ↦ record {
      row = sole.row;
      at = ground (arith, sole.at);
      holds = sole.holds;
      only = only_updated;
    }
  ]
    where
      only_updated : (j : ℕ) (s : Row) → updated h k t j ≡ some s → P s → j ≡ i
      only_updated j s e p = elim (Bool-cases (k == j)) [
        | inr miss ↦ sole.only j s (ground arith) p
        | inl hit ↦ elim (Option-cases (t j)) [
          | inl empty ↦ absurd (ground arith)
          | inr (r, at) ↦ sole.only j r at (back r (subst P (ground arith) p))
        ]
      ]

  -- Nor does a text at another ID that does not make its row satisfy `P`.
  pub Sole-updated_ne :
      (h : Text) (k : ℕ) → k ≢ i → ((r : Row) → ¬ P (with_hex h r)) → Sole P i (updated h k t)
  Sole-updated_ne h k other never = record {
    row = sole.row;
    at = ground (arith, sole.at);
    holds = sole.holds;
    only = λ j s e p. elim (Bool-cases (k == j)) [
      | inr miss ↦ sole.only j s (ground arith) p
      | inl hit ↦ elim (Option-cases (t j)) [
        | inl empty ↦ absurd (ground arith)
        | inr (r, at) ↦ absurd (never r (subst P (ground arith) p))
      ]
    ];
  }

-- A fresh row that satisfies `P` makes its ID the sole one, where no row did.
pub inserted-Sole :
    (P : Row → Type 0) (n : NewRow) (ts : Option Text) (t : Table)
    → ((j : ℕ) (r : Row) → t j ≡ some r → ¬ P r)
    → P (stamped n ts)
    → Sole P n.node_id (inserted n ts t)
inserted-Sole P n ts t none_before p = record {
  row = stamped n ts;
  at = ground arith;
  holds = p;
  only = λ j s e q. elim (Bool-cases (n.node_id == j)) [
    | inl here ↦ ground arith
    | inr there ↦ absurd (none_before j s (ground arith) q)
  ];
}
