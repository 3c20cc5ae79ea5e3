-- ===== src/Cli.antt =====
-- src/cli.rs: the operator's loop over the lines that the line editor reads, and the help text of
-- src/commands/help.rs. What the editor reads is an argument.
use mathlib.Core.List.{append-nil}
use cyphal_service.Common.{
  ◌≡◌, refl, sym, ap, ap₂, ◌∙◌, Bool, true, false, ◌&&◌, ◌||◌, Option, none, some, List, [], ◌∷◌,
  ◌++◌, arith, if◌then◌else◌, Text, text, text_eq, Result, ok, err, Bool-cases, inl, inr,
  eq_of_text_eq,
}
use cyphal_service.Commands.Registry.{CommandRegistry, dispatch, list}
use cyphal_service.Commands.Texts.{trim, trim_end, padded}

abbrev pub help_line : Text × Text → Text
help_line (name, desc) = text "  " ++ padded 16 name ++ text " " ++ desc ++ 10 ∷ []

abbrev pub help_lines : List (Text × Text) → Text
help_lines [] = []
help_lines (e ∷ es) = help_line e ++ help_lines es

unfoldable pub format_help : List (Text × Text) → Text
unfolding trim_end
format_help entries = trim_end (text "Available commands:" ++ (10 ∷ help_lines entries))

-- What `readline` gives.
pub data Read : Type 0 where
  line : Text → Read
  interrupted end_of_file : Read
  failed : Text → Read

pub data Output : Type 0 where
  printed error_printed : Text → Output

abbrev pub said : Option Text → List Output
said none = []
said (some s) = printed s ∷ []

abbrev pub is_quit : Text → Bool
is_quit s = text_eq s (text "quit") || text_eq s (text "exit")

-- A line that does not end the loop.
unfoldable pub answer : CommandRegistry → Text → List Output
unfolding format_help
answer r trimmed =
    if text_eq trimmed (text "help")
    then printed (format_help (list r)) ∷ []
    else said (dispatch r trimmed)

-- The loop's body for one read: what it prints, and whether it breaks. An empty line prints nothing.
unfoldable pub handle_read : CommandRegistry → Read → List Output × Bool
unfolding answer trim
handle_read r (line s) =
    if text_eq (trim s) []
    then ([], false)
    else (if is_quit (trim s)
        then (printed (text "Goodbye.") ∷ [], true)
        else (answer r (trim s), false))
handle_read r interrupted = (printed (text "Goodbye.") ∷ [], true)
handle_read r end_of_file = (printed (text "Goodbye.") ∷ [], true)
handle_read r (failed e) = (error_printed (text "REPL error: " ++ e) ∷ [], true)

-- The loop over the reads so far, and whether it has broken.
unfoldable pub read_loop : CommandRegistry → List Read → List Output × Bool
unfolding handle_read
read_loop r [] = ([], false)
read_loop r (x ∷ xs) =
    let now = handle_read r x in
    let later = read_loop r xs in if now.1 then now else (now.0 ++ later.0, later.1)

-- What is printed, and whether the shutdown signal is sent. The editor may fail to start.
unfoldable pub repl_loop : CommandRegistry → Result (Unit {0}) Text → List Read → List Output × Bool
unfolding read_loop
repl_loop r (err e) reads = (error_printed (text "REPL initialisation error: " ++ e) ∷ [], false)
repl_loop r (ok _) reads = read_loop r reads

-- A read that asks for the end: anything but a line, or the word quit or exit.
abbrev pub asks_to_end : Read → Bool
asks_to_end (line s) = is_quit (trim s)
asks_to_end interrupted = true
asks_to_end end_of_file = true
asks_to_end (failed e) = true

-- The reads up to the first that asks for the end, that one included.
abbrev pub until_end : List Read → List Read
until_end [] = []
until_end (x ∷ xs) = let rest = until_end xs in if asks_to_end x then x ∷ [] else x ∷ rest

abbrev pub any_end : List Read → Bool
any_end [] = false
any_end (x ∷ xs) = asks_to_end x || any_end xs

-- What each of some reads prints, in order.
abbrev pub prints : CommandRegistry → List Read → List Output
prints r [] = []
prints r (x ∷ xs) = (handle_read r x).0 ++ prints r xs

handle_read-ends : (r : CommandRegistry) (x : Read) → (handle_read r x).1 ≡ asks_to_end x
unfolding handle_read text_eq
handle_read-ends r (line s) = elim (Bool-cases (text_eq (trim s) [])) [
  | inl empty ↦ let e : trim s ≡ [] = eq_of_text_eq (trim s) [] empty in rw e refl
  | inr full ↦ ground arith
]
handle_read-ends r interrupted = refl
handle_read-ends r end_of_file = refl
handle_read-ends r (failed e) = refl

pub read_loop-until_end :
    (r : CommandRegistry) (reads : List Read)
    → read_loop r reads ≡ (prints r (until_end reads), any_end reads)
unfolding read_loop
read_loop-until_end r [] = refl
read_loop-until_end r (x ∷ xs) = elim (Bool-cases (asks_to_end x)) [
  | inl ends ↦
      let e : (handle_read r x).1 ≡ true = handle_read-ends r x ∙ ends in
      rw (ends, e) (ap₂ (λ a b. (a, b)) (sym (append-nil (handle_read r x).0)) e)
  | inr goes ↦
      let e : (handle_read r x).1 ≡ false = handle_read-ends r x ∙ goes in
      rw (goes, e) (ap (λ p. ((handle_read r x).0 ++ p.0, p.1)) (read_loop-until_end r xs))
]

abbrev pub is_ok {ℓ κ} : {A : Type ℓ} {E : Type κ} → Result A E → Bool
is_ok (ok a) = true
is_ok (err e) = false

-- The shutdown signal is sent just when the line editor started and a read asked for the end. When
-- the editor does not start it is never sent.
pub repl_loop-signal :
    (r : CommandRegistry) (editor : Result (Unit {0}) Text) (reads : List Read)
    → (repl_loop r editor reads).1 ≡ (is_ok editor && any_end reads)
unfolding repl_loop
repl_loop-signal r (ok u) reads = ap (λ p. p.1) (read_loop-until_end r reads)
repl_loop-signal r (err e) reads = refl
