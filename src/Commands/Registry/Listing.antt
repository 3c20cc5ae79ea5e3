-- ===== src/Commands/Registry/Listing.antt =====
-- src/commands/mod.rs: the listing that the help shows.
use mathlib.Core.List.Perm
use mathlib.Core.List.{Perm}
use cyphal_service.Common.{
  ◌≡◌, refl, subst, true, false, List, [], ◌∷◌, map, arith, if◌then◌else◌, Text, Bool-cases, inl,
  inr,
}
use cyphal_service.Commands.Registry.{CommandRegistry, text_leb, insert_entry, sort_entries, list}

-- Every name is at most the next one.
abbrev pub IsSorted : List (Text × Text) → Type 0
IsSorted [] = Unit {0}
IsSorted (e ∷ []) = Unit {0}
IsSorted (e ∷ f ∷ fs) = (text_leb e.0 f.0 ≡ true) × IsSorted (f ∷ fs)

abbrev pub entries : CommandRegistry → List (Text × Text)
entries = map (λ e. (e.1.name, e.1.description))

text_leb-total : (s t : Text) → text_leb s t ≡ false → text_leb t s ≡ true
unfolding text_leb
text_leb-total [] t h = cc
text_leb-total (a ∷ s) [] h = refl
text_leb-total (a ∷ s) (b ∷ t) h = ground (arith, text_leb-total s t)

insert_entry-IsSorted :
    (e : Text × Text) (fs : List (Text × Text)) → IsSorted fs → IsSorted (insert_entry e fs)
unfolding insert_entry
insert_entry-IsSorted e [] s = tt
insert_entry-IsSorted e (f ∷ []) s = elim (Bool-cases (text_leb e.0 f.0)) [
  | inl low ↦ rw low (low, tt)
  | inr high ↦ rw high (text_leb-total e.0 f.0 high, tt)
]
insert_entry-IsSorted e (f ∷ g ∷ fs) s = elim (Bool-cases (text_leb e.0 f.0)) [
  | inl low ↦ rw low (low, s)
  | inr high ↦ elim (Bool-cases (text_leb e.0 g.0)) [
    | inl mid ↦ rw (high, mid) (text_leb-total e.0 f.0 high, (mid, s.1))
    | inr above ↦
        let rest : IsSorted (g ∷ insert_entry e fs) =
          subst (λ b. IsSorted (if b then e ∷ g ∷ fs else g ∷ insert_entry e fs)) above
            (insert_entry-IsSorted e (g ∷ fs) s.1) in
        rw (high, above) (s.0, rest)
  ]
]

sort_entries-IsSorted : (es : List (Text × Text)) → IsSorted (sort_entries es)
unfolding sort_entries
sort_entries-IsSorted [] = tt
sort_entries-IsSorted (e ∷ es) =
    insert_entry-IsSorted e (sort_entries es) (sort_entries-IsSorted es)

insert_entry-Perm : (e : Text × Text) (fs : List (Text × Text)) → Perm (insert_entry e fs) (e ∷ fs)
unfolding insert_entry
insert_entry-Perm e [] = Perm.refl (e ∷ [])
insert_entry-Perm e (f ∷ fs) = elim (Bool-cases (text_leb e.0 f.0)) [
  | inl low ↦ rw low (Perm.refl (e ∷ f ∷ fs))
  | inr high ↦ rw high (Perm.trans (Perm.cons f (insert_entry-Perm e fs)) (Perm.swap e f fs))
]

sort_entries-Perm : (es : List (Text × Text)) → Perm (sort_entries es) es
unfolding sort_entries
sort_entries-Perm [] = Perm.nil
sort_entries-Perm (e ∷ es) =
    Perm.trans (insert_entry-Perm e (sort_entries es)) (Perm.cons e (sort_entries-Perm es))

-- The listing of a registry is sorted by name, and is a permutation of the names and descriptions
-- of its commands.
pub list-sorts : (r : CommandRegistry) → IsSorted (list r) × Perm (list r) (entries r)
unfolding list
list-sorts r = (sort_entries-IsSorted (entries r), sort_entries-Perm (entries r))
