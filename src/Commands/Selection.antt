-- ===== src/Commands/Selection.antt =====
-- src/commands: which transports a command is about. A handle stands with what becomes of the one
-- call that the command makes on it.
use cyphal_service.Common.{
  List, [], ◌∷◌, ◌++◌, map, if◌then◌else◌, Text, text, text_eq, Result, ok, err,
}
use cyphal_service.Transport.Handle.{TransportHandle, Reply}
use cyphal_service.Commands.Texts.{join}

abbrev pub Attached : Type 0 → Type 0
Attached A = TransportHandle × Reply A

-- `.filter(|h| h.name == *name)`.
unfoldable pub named : {A : Type 0} → Text → List (Attached A) → List (Attached A)
named name [] = []
named name (h ∷ hs) = let rest = named name hs in if text_eq h.0.name name then h ∷ rest else rest

unfoldable pub unknown_transport : Text → List Text → Text
unfolding join
unknown_transport name names =
    text "Unknown transport '" ++ (name ++ (text "'. Available: " ++ join (text ", ") names))

-- The transports of the given name, all where none is given, or what to say where there are none.
unfoldable pub select :
    {A : Type 0} → List Text → List (Attached A) → Result (List (Attached A)) Text
unfolding named unknown_transport
select [] hs = ok hs
select (name ∷ args) hs = elim (named name hs) [
  | [] ↦ err (unknown_transport name (map (λ h. h.0.name) hs))
  | h ∷ found ↦ ok (h ∷ found)
]

-- A command that says something of each selected transport: the texts that it makes of them, put
-- together.
abbrev pub over_selected :
    {A : Type 0} → (List (Attached A) → Text) → List (Attached A) → List Text → Text
over_selected present [] args = text "No transports configured."
over_selected present (h ∷ hs) args = elim (select args (h ∷ hs)) [
  | err e ↦ e
  | ok selected ↦ present selected
]
