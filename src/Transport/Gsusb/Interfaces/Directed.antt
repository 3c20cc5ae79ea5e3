-- ===== src/Transport/Gsusb/Interfaces/Directed.antt =====
-- src/transport/can_gsusb.rs: the endpoints that `find_gsusb_interface` chooses have the direction
-- they are used in.
use cyphal_service.Common.{
  ℕ, ◌≤◌, ◌<◌, ◌≡◌, refl, subst, ◌⊎◌, Bool-cases, ◌||◌, Option, none, some, List, [], ◌∷◌, arith,
  ◌==◌, All, inl, inr,
}
use cyphal_service.Transport.Gsusb.Usb.{Direction, dir_in, dir_out, Endpoint, Descriptor}
use cyphal_service.Transport.Gsusb.Interfaces.{
  GsUsbInterfaceInfo, bulk_in, bulk_out, bulk_out_alt, Found, note_expected, note_any, scan,
  completed, first_expected, first_any, or_then, choose_interface,
}

-- An endpoint's address has its top bit set just when it is one to read.
abbrev pub IsAddressed : Endpoint → Type 0
IsAddressed e = elim e.direction [ dir_in ↦ 128 ≤ e.address | dir_out ↦ e.address < 128 ]

abbrev IsIn : Option ℕ → Type 0
IsIn none = Unit {0}
IsIn (some i) = 128 ≤ i

abbrev IsOut : Option ℕ → Type 0
IsOut none = Unit {0}
IsOut (some o) = o < 128

abbrev FoundAddressed : Found → Type 0
FoundAddressed f = IsIn f.0 × IsOut f.1

Direction-cases : (d : Direction) → (d ≡ dir_in) ⊎ (d ≡ dir_out)
Direction-cases dir_in = inl refl
Direction-cases dir_out = inr refl

scan-Addressed :
    (note : Endpoint → Found → Found)
    → ((e : Endpoint) (f : Found) → IsAddressed e → FoundAddressed f → FoundAddressed (note e f))
    → (es : List Endpoint) (f : Found) → All IsAddressed es
    → FoundAddressed f
    → FoundAddressed (scan note es f)
unfolding scan
scan-Addressed note keep [] f a h = h
scan-Addressed note keep (e ∷ es) f a h =
    scan-Addressed note keep es (note e f) a.1 (keep e f a.0 h)

note_any-Addressed :
    (e : Endpoint) (f : Found) → IsAddressed e → FoundAddressed f → FoundAddressed (note_any e f)
note_any-Addressed e f a h = elim (Bool-cases e.is_bulk) [
  | inl bulk ↦ elim (Direction-cases e.direction) [
    | inl d ↦ rw (bulk, d) (subst Addressed d a, h.1)
    | inr d ↦ rw (bulk, d) (h.0, subst Addressed d a)
  ]
  | inr bulk ↦ rw bulk h
]
  where
    Addressed : Direction → Type 0
    Addressed dir_in = 128 ≤ e.address
    Addressed dir_out = e.address < 128

note_expected-Addressed :
    (e : Endpoint) (f : Found)
    → IsAddressed e
    → FoundAddressed f
    → FoundAddressed (note_expected e f)
note_expected-Addressed e f a h = elim (Bool-cases e.is_bulk) [
  | inl bulk ↦ elim (Direction-cases e.direction) [
    | inl d ↦ elim (Bool-cases (e.address == bulk_in)) [
      | inl usual ↦ rw (bulk, d, usual) (ground arith, h.1)
      | inr unusual ↦ rw (bulk, d, unusual) h
    ]
    | inr d ↦ elim (Bool-cases (e.address == bulk_out || e.address == bulk_out_alt)) [
      | inl usual ↦ rw (bulk, d, usual) (h.0, ground arith)
      | inr unusual ↦ rw (bulk, d, unusual) h
    ]
  ]
  | inr bulk ↦ rw bulk h
]

-- The endpoint to read is one to read, and the endpoint to write one to write.
abbrev pub IsDirected : GsUsbInterfaceInfo → Type 0
IsDirected info = (128 ≤ info.bulk_in_endpoint) × (info.bulk_out_endpoint < 128)

abbrev Directed : Option GsUsbInterfaceInfo → Type 0
Directed none = Unit {0}
Directed (some info) = IsDirected info

completed-Directed : (d : Descriptor) (f : Found) → FoundAddressed f → Directed (completed d f)
completed-Directed d (none, o) h = tt
completed-Directed d (some i, none) h = tt
completed-Directed d (some i, some o) h = h

or_else-Directed :
    (o rest : Option GsUsbInterfaceInfo)
    → Directed o
    → Directed rest
    → Directed (elim o [ some info ↦ some info | none ↦ rest ])
or_else-Directed none rest h k = k
or_else-Directed (some info) rest h k = h

abbrev AllAddressed : List Descriptor → Type 0
AllAddressed = All (λ d. All IsAddressed d.endpoints)

first_expected-Directed : (ds : List Descriptor) → AllAddressed ds → Directed (first_expected ds)
unfolding first_expected
first_expected-Directed [] a = tt
first_expected-Directed (d ∷ ds) a =
    let found = completed d (scan note_expected d.endpoints (none, none)) in
    let here = completed-Directed d _ (
      scan-Addressed note_expected note_expected-Addressed d.endpoints (none, none) a.0 (tt, tt)) in
    let later = first_expected-Directed ds a.1 in
    elim (Bool-cases (d.class_code == 0xff)) [
      | inl vendor ↦ rw vendor (or_else-Directed found (first_expected ds) here later)
      | inr common ↦ rw common later
    ]

first_any-Directed : (ds : List Descriptor) → AllAddressed ds → Directed (first_any ds)
unfolding first_any
first_any-Directed [] a = tt
first_any-Directed (d ∷ ds) a =
    or_else-Directed (completed d (scan note_any d.endpoints (none, none))) (first_any ds)
      (completed-Directed d _
        (scan-Addressed note_any note_any-Addressed d.endpoints (none, none) a.0 (tt, tt)))
      (first_any-Directed ds a.1)

or_then-IsDirected :
    (o : Option GsUsbInterfaceInfo) (next : GsUsbInterfaceInfo)
    → Directed o
    → IsDirected next
    → IsDirected (or_then o next)
or_then-IsDirected none next h k = k
or_then-IsDirected (some info) next h k = h

-- Where every endpoint's address tells its direction by its top bit, as USB has it, the chosen
-- endpoints are one to read and one to write, whichever pass chose them.
pub choose_interface-IsDirected :
    (ds : List Descriptor)
    → All (λ d. All IsAddressed d.endpoints) ds
    → IsDirected (choose_interface ds)
unfolding choose_interface
choose_interface-IsDirected ds a =
    or_then-IsDirected (first_expected ds) _ (first_expected-Directed ds a)
      (or_then-IsDirected (first_any ds) _ (first_any-Directed ds a) (omega arith, omega arith))
