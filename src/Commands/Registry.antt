-- ===== src/Commands/Registry.antt =====
-- src/commands/mod.rs: the registry of commands. `HashMap<String, Box<dyn Command>>` is an
-- association list; a text is a list of code points, and Rust's order of strings is that of their
-- code points.
pub mod Words
pub mod Listing
use cyphal_service.Common.{
  ℕ, ◌≡◌, refl, Bool, true, false, ◌&&◌, ◌||◌, Option, none, some, List, [], ◌∷◌, ◌++◌, map, arith,
  ◌==◌, leb, ltb, if◌then◌else◌, Text, text, text_eq,
}

pub record Command : Type 0 where
  pub name : Text
  pub description : Text
  pub execute : List Text → Text

abbrev pub CommandRegistry : Type 0
CommandRegistry = List (Text × Command)

-- `char::is_whitespace`.
unfoldable pub is_whitespace : ℕ → Bool
is_whitespace c =
    (leb 9 c && leb c 13)
    || c == 32
    || c == 133
    || c == 160
    || c == 5760
    || (leb 8192 c && leb c 8202)
    || c == 8232
    || c == 8233
    || c == 8239
    || c == 8287
    || c == 12288

-- The word that is being read, if it is not empty.
abbrev pub finished : Text → List Text → List Text
finished [] ws = ws
finished (c ∷ cs) ws = (c ∷ cs) ∷ ws

-- `current` holds the characters of the word that is being read.
unfoldable pub split_from : Text → Text → List Text
split_from current [] = finished current []
split_from current (c ∷ cs) =
    let ended = split_from [] cs in
    let longer = split_from (current ++ c ∷ []) cs in
    if is_whitespace c then finished current ended else longer

-- `str::split_whitespace`.
abbrev pub split_whitespace : Text → List Text
split_whitespace line = split_from [] line

unfoldable pub find_command : Text → CommandRegistry → Option Command
find_command n [] = none
find_command n ((k, c) ∷ r) = let rest = find_command n r in if text_eq k n then some c else rest

unfoldable pub insert_command : Text → Command → CommandRegistry → CommandRegistry
insert_command n c [] = (n, c) ∷ []
insert_command n c ((k, d) ∷ r) =
    let rest = insert_command n c r in if text_eq k n then (n, c) ∷ r else (k, d) ∷ rest

unfoldable pub register : CommandRegistry → Command → CommandRegistry
unfolding insert_command
register r c = insert_command c.name c r

unfoldable pub unknown_command : Text → Text
unknown_command n = text "Unknown command: '" ++ n ++ text "'.  Type 'help' for available commands."

-- The command of a line's first word, on the others.
abbrev pub run_command : Option Command → Text → List Text → Text
run_command none n args = unknown_command n
run_command (some c) n args = c.execute args

-- The rest of a dispatch, on the words of the line.
unfoldable pub dispatch_words : CommandRegistry → List Text → Option Text
unfolding find_command
dispatch_words r [] = none
dispatch_words r (n ∷ args) = some (run_command (find_command n r) n args)

unfoldable pub dispatch : CommandRegistry → Text → Option Text
unfolding dispatch_words
dispatch r line = dispatch_words r (split_whitespace line)

-- `a <= b` on strings.
unfoldable pub text_leb : Text → Text → Bool
text_leb [] t = true
text_leb (a ∷ s) [] = false
text_leb (a ∷ s) (b ∷ t) =
    let rest = text_leb s t in if ltb a b then true else (if a == b then rest else false)

unfoldable pub insert_entry : Text × Text → List (Text × Text) → List (Text × Text)
insert_entry e [] = e ∷ []
insert_entry e (f ∷ fs) =
    let rest = insert_entry e fs in if text_leb e.0 f.0 then e ∷ f ∷ fs else f ∷ rest

-- `sort_by_key(|(name, _)| *name)`, a stable sort.
unfoldable pub sort_entries : List (Text × Text) → List (Text × Text)
unfolding insert_entry
sort_entries [] = []
sort_entries (e ∷ es) = insert_entry e (sort_entries es)

unfoldable pub list : CommandRegistry → List (Text × Text)
unfolding sort_entries
list r = sort_entries (map (λ e. (e.1.name, e.1.description)) r)
