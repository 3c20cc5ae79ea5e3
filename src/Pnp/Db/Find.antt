-- ===== src/Pnp/Db/Find.antt =====
-- src/pnp/db.rs: what the lookups find.
use mathlib.Core.Option
use cyphal_service.Common.{
  ℕ, ◌≡◌, refl, ap, sym, ◌∙◌, subst, inl, inr, true, false, none, some, List, arith, Text,
  eq_of_text_eq, text_eq_refl, Option-cases, Result-cases,
}
use cyphal_service.Common.Int.{ℤ, as_i64, eq_of_eq_ℤ, eq_ℤ_refl}
use cyphal_service.Pnp.Hex.{bytes_to_hex}
use cyphal_service.Pnp.Sqlite.{
  Row, Sqlite, IsSqlite, IsReadable, Where, unique_id_hex_is, pseudo_unique_id_is, node_id_is,
  matches,
}
use cyphal_service.Pnp.Db.{
  AllocationEntry, find_by_unique_id, find_by_hash, find_by_node_id, first_row, as_u16, to_entry,
}

-- A row that the WHERE clause selects, at its key.
abbrev Selected : (sq : Sqlite) → IsSqlite sq → sq.Conn → Where → Row → Type 0
Selected sq laws c w r = (laws.table c r.node_id ≡ some r) × (matches w r ≡ true)

module _ (sq : Sqlite) (laws : IsSqlite sq) (c : sq.Conn) where
  open laws use {table, first_hit, first_miss, key}

  first_row-Selected :
      (w : Where) (r : Row) → first_row (sq.select_first c w) ≡ some r → Selected sq laws c w r
  first_row-Selected w r h = elim (Result-cases (sq.select_first c w)) [
    | inl (o, e) ↦ first_hit c w r (ground arith)
    | inr (x, e) ↦ absurd (ground arith)
  ]

  -- On an engine whose reads succeed a lookup misses only when no row is selected.
  first_row-none :
      IsReadable sq
      → (w : Where) → first_row (sq.select_first c w) ≡ none
      → (i : ℕ) (r : Row) → table c i ≡ some r
      → matches w r ≡ false
  first_row-none readable w h i r at =
      let (o, e) = readable.first_ok c w in first_miss c w i r (ground arith) at

  first_row-found :
      IsReadable sq
      → (w : Where) (i : ℕ) (r : Row) → table c i ≡ some r
      → matches w r ≡ true
      → (s : Row) × (first_row (sq.select_first c w) ≡ some s)
  first_row-found readable w i r at fits = elim (Option-cases (first_row (sq.select_first c w))) [
    | inl e ↦ absurd (ground (arith, first_row-none readable w e i r at))
    | inr found ↦ found
  ]

  matches-hex :
      (h : Text) (r : Row) → matches (unique_id_hex_is h) r ≡ true → r.unique_id_hex ≡ some h
  matches-hex h r m = elim (Option-cases r.unique_id_hex) [
    | inl e ↦ absurd (ground arith)
    | inr (s, e) ↦ ground (arith, eq_of_text_eq s h)
  ]

  hex-matches :
      (h : Text) (r : Row) → r.unique_id_hex ≡ some h → matches (unique_id_hex_is h) r ≡ true
  hex-matches h r e = ground (arith, text_eq_refl h)

  matches-pseudo :
      (p : ℤ) (r : Row) → matches (pseudo_unique_id_is p) r ≡ true → r.pseudo_unique_id ≡ some p
  matches-pseudo p r m = elim (Option-cases r.pseudo_unique_id) [
    | inl e ↦ absurd (ground arith)
    | inr (s, e) ↦ ground (arith, eq_of_eq_ℤ s p)
  ]

  pseudo-matches :
      (p : ℤ) (r : Row) → r.pseudo_unique_id ≡ some p → matches (pseudo_unique_id_is p) r ≡ true
  pseudo-matches p r e = ground (arith, eq_ℤ_refl p)

  -- A lookup by unique ID that finds `i` read it off a row that holds the ID's text.
  pub find_by_unique_id-some :
      (uid : List ℕ) (i : ℕ)
      → find_by_unique_id sq c uid ≡ some i
      → (r : Row) × (i ≡ as_u16 r.node_id)
        × (table c r.node_id ≡ some r)
        × (r.unique_id_hex ≡ some (bytes_to_hex uid))
  unfolding find_by_unique_id
  find_by_unique_id-some uid i h =
      elim (Option-cases (first_row (sq.select_first c (unique_id_hex_is (bytes_to_hex uid))))) [
        | inl e ↦ absurd (ground arith)
        | inr (r, e) ↦
            let (at, fits) = first_row-Selected _ r e in
            (r, ground arith, at, matches-hex (bytes_to_hex uid) r fits)
      ]

  -- On an engine whose reads succeed it finds something as soon as some row holds that text.
  pub find_by_unique_id-found :
      IsReadable sq
      → (uid : List ℕ) (i : ℕ) (r : Row) → table c i ≡ some r
      → r.unique_id_hex ≡ some (bytes_to_hex uid)
      → (j : ℕ) × (find_by_unique_id sq c uid ≡ some j)
  unfolding find_by_unique_id
  find_by_unique_id-found readable uid i r at e =
      let (s, found) =
        first_row-found readable (unique_id_hex_is (bytes_to_hex uid)) i r at
          (hex-matches (bytes_to_hex uid) r e) in
      (as_u16 s.node_id, rw found refl)

  pub find_by_hash-some :
      (hash i : ℕ)
      → find_by_hash sq c hash ≡ some i
      → (r : Row) × (i ≡ as_u16 r.node_id)
        × (table c r.node_id ≡ some r)
        × (r.pseudo_unique_id ≡ some (as_i64 hash))
  unfolding find_by_hash
  find_by_hash-some hash i h =
      elim (Option-cases (first_row (sq.select_first c (pseudo_unique_id_is (as_i64 hash))))) [
        | inl e ↦ absurd (ground arith)
        | inr (r, e) ↦
            let (at, fits) = first_row-Selected _ r e in
            (r, ground arith, at, matches-pseudo (as_i64 hash) r fits)
      ]

  pub find_by_hash-found :
      IsReadable sq
      → (hash i : ℕ) (r : Row) → table c i ≡ some r
      → r.pseudo_unique_id ≡ some (as_i64 hash)
      → (j : ℕ) × (find_by_hash sq c hash ≡ some j)
  unfolding find_by_hash
  find_by_hash-found readable hash i r at e =
      let (s, found) =
        first_row-found readable (pseudo_unique_id_is (as_i64 hash)) i r at
          (pseudo-matches (as_i64 hash) r e) in
      (as_u16 s.node_id, rw found refl)

  -- A lookup by node ID returns the row at that ID, if there is one.
  pub find_by_node_id-some :
      (i : ℕ) (e : AllocationEntry)
      → find_by_node_id sq c i ≡ some e
      → (r : Row) × (table c i ≡ some r) × (e ≡ to_entry r)
  unfolding find_by_node_id
  find_by_node_id-some i e h = elim (Option-cases (first_row (sq.select_first c (node_id_is i)))) [
    | inl miss ↦ absurd (ground arith)
    | inr (r, hit) ↦
        let (at, fits) = first_row-Selected (node_id_is i) r hit in
        let same : r.node_id ≡ i = ground arith in
        (r, subst (λ j. table c j ≡ some r) same at, ground arith)
  ]

  pub find_by_node_id-table :
      IsReadable sq
      → (i : ℕ) (r : Row) → table c i ≡ some r
      → find_by_node_id sq c i ≡ some (to_entry r)
  unfolding find_by_node_id
  find_by_node_id-table readable i r at =
      let (s, hit) =
        first_row-found readable (node_id_is i) i r at (ground (arith, key c i r at)) in
      let (at', fits) = first_row-Selected (node_id_is i) s hit in
      let same : s.node_id ≡ i = ground arith in
      let eq : some s ≡ some r = sym (subst (λ j. table c j ≡ some s) same at') ∙ at in
      rw hit (ap (Option.map to_entry) eq)
