-- ===== src/Commands/Registry/Words.antt =====
-- src/commands/mod.rs: the words of a line, and the command that they reach.
use mathlib.Core.List.{append_assoc, append-nil}
use cyphal_service.Common.{
  ◌≡◌, ◌≢◌, refl, sym, ap, ◌∙◌, subst, true, false, some, List, [], ◌∷◌, ◌++◌, map, ◌⊎◌, Bool, text,
  arith, if◌then◌else◌, Text, text_eq, All, Bool-cases, inl, inr, eq_of_text_eq, text_eq_refl,
}
use cyphal_service.Commands.Registry.{
  Command, CommandRegistry, is_whitespace, finished, split_from, split_whitespace, find_command,
  unknown_command, insert_command, register, run_command, dispatch, dispatch_words,
}

-- A word: a text that is not empty and has no white space.
pub record IsWord (w : Text) : Type 0 where
  pub not_empty : w ≢ []
  pub solid : All (λ c. is_whitespace c ≡ false) w

abbrev pub IsBlank : Text → Type 0
IsBlank gap = All (λ c. is_whitespace c ≡ true) gap

-- A line that is written as some white space, then each word with the white space after it.
abbrev pub spelled : Text → List (Text × Text) → Text
spelled lead [] = lead
spelled lead ((w, gap) ∷ ps) = lead ++ (w ++ spelled gap ps)

-- Words, each apart from the next by white space; after the last there may be none.
abbrev pub IsSpelling : List (Text × Text) → Type 0
IsSpelling [] = Unit
IsSpelling ((w, gap) ∷ ps) = IsWord w × IsBlank gap × ((gap ≢ []) ⊎ (ps ≡ [])) × IsSpelling ps

abbrev pub words_of : List (Text × Text) → List Text
words_of ps = map (λ p. p.0) ps

split_from-word :
    (current w rest : Text)
    → All (λ c. is_whitespace c ≡ false) w
    → split_from current (w ++ rest) ≡ split_from (current ++ w) rest
unfolding split_from
split_from-word current [] rest solid = ap (λ t. split_from t rest) (sym (append-nil current))
split_from-word current (c ∷ w) rest solid = rw (solid.0) (
    split_from-word (current ++ c ∷ []) w rest solid.1
    ∙ ap (λ t. split_from t rest) (append_assoc current (c ∷ []) w))

finished-word : (w : Text) (ws : List Text) → w ≢ [] → finished w ws ≡ w ∷ ws
finished-word [] ws h = absurd (h refl)
finished-word (c ∷ w) ws h = refl

split_from-gap : (gap rest : Text) → IsBlank gap → split_from [] (gap ++ rest) ≡ split_from [] rest
unfolding split_from
split_from-gap [] rest blank = refl
split_from-gap (c ∷ gap) rest (here, later) = rw here (split_from-gap gap rest later)

-- White space, or the end of the line, ends a word.
split_from-ended :
    (w gap rest : Text)
    → w ≢ []
    → IsBlank gap
    → (gap ≢ []) ⊎ (rest ≡ [])
    → split_from w (gap ++ rest) ≡ w ∷ split_from [] (gap ++ rest)
unfolding split_from
split_from-ended w [] rest h blank (inl gap) = absurd (gap refl)
split_from-ended w [] rest h blank (inr ended) = rw ended (finished-word w [] h)
split_from-ended w (c ∷ gap) rest h (here, later) apart =
    rw here (finished-word w (split_from [] (gap ++ rest)) h)

-- The part of a line after its leading white space.
abbrev body : List (Text × Text) → Text
body [] = []
body ((w, gap) ∷ ps) = w ++ spelled gap ps

spelled-body : (lead : Text) (ps : List (Text × Text)) → spelled lead ps ≡ lead ++ body ps
spelled-body lead [] = sym (append-nil lead)
spelled-body lead ((w, gap) ∷ ps) = refl

split-spelled :
    (lead : Text) (ps : List (Text × Text))
    → IsBlank lead
    → IsSpelling ps
    → split_whitespace (spelled lead ps) ≡ words_of ps
unfolding split_from
split-spelled lead [] blank h =
    ap (split_from []) (sym (append-nil lead)) ∙ split_from-gap lead [] blank
split-spelled lead ((w, gap) ∷ ps) blank (word, gap_blank, apart, others) =
    split_from-gap lead (w ++ spelled gap ps) blank
    ∙ split_from-word [] w (spelled gap ps) word.solid
    ∙ ap (split_from w) (spelled-body gap ps)
    ∙ split_from-ended w gap (body ps) word.not_empty gap_blank (ended ps apart)
    ∙ ap (λ t. w ∷ split_from [] t) (sym (spelled-body gap ps))
    ∙ ap (◌∷◌ w) (split-spelled gap ps gap_blank others)
  where
    ended : (ps : List (Text × Text)) → (gap ≢ []) ⊎ (ps ≡ []) → (gap ≢ []) ⊎ (body ps ≡ [])
    ended ps (inl h) = inl h
    ended ps (inr e) = inr (ap body e)

other_name : (j k n : Text) → text_eq j k ≡ false → text_eq j n ≡ true → text_eq k n ≡ false
other_name j k n other here = elim (Bool-cases (text_eq k n)) [
  | inl same ↦
      let e : j ≡ k = eq_of_text_eq j n here ∙ sym (eq_of_text_eq k n same) in
      let yes : text_eq j k ≡ true = subst (λ t. text_eq j t ≡ true) e (text_eq_refl j) in
      absurd (cc)
  | inr e ↦ e
]

find-insert :
    (n k : Text) (c : Command) (r : CommandRegistry)
    → find_command n (insert_command k c r) ≡ (if text_eq k n then some c else find_command n r)
unfolding find_command insert_command
find-insert n k c [] = refl
find-insert n k c ((j, d) ∷ r) = elim (Bool-cases (text_eq j k)) [
  | inl same ↦ let e = eq_of_text_eq j k same in rw (same) (rw e (ground arith))
  | inr other ↦ elim (Bool-cases (text_eq j n)) [
    | inl here ↦ let far = other_name j k n other here in rw (other) (rw (here, far) refl)
    | inr there ↦ rw (other) (rw (there) (find-insert n k c r))
  ]
]

dispatch_words-insert :
    (r : CommandRegistry) (c : Command) (n : Text) (args : List Text)
    → dispatch_words (register r c) (n ∷ args)
      ≡ (if text_eq c.name n then some (c.execute args) else dispatch_words r (n ∷ args))
unfolding dispatch_words register
dispatch_words-insert r c n args =
    ap (λ o. some (run_command o n args)) (find-insert n c.name c r) ∙ chosen (text_eq c.name n)
  where
    chosen :
        (b : Bool)
        → some (run_command (if b then some c else find_command n r) n args)
          ≡ (if b then some (c.execute args) else some (run_command (find_command n r) n args))
    chosen true = refl
    chosen false = refl

-- A line is words with any white space between them, before them and after them. With nothing
-- registered its first word is told to be unknown. Once a command is registered, a line whose first
-- word is its name runs it on the other words, and a line with another first word does what it did
-- before.
pub dispatch-register :
    (r : CommandRegistry) (c : Command) (lead n gap : Text) (args : List (Text × Text))
    → IsBlank lead
    → IsSpelling ((n, gap) ∷ args)
    → (dispatch [] (spelled lead ((n, gap) ∷ args))
        ≡ some (text "Unknown command: '" ++ n ++ text "'.  Type 'help' for available commands."))
      × (dispatch (register r c) (spelled lead ((n, gap) ∷ args)) ≡ (
          if text_eq c.name n
          then some (c.execute (words_of args))
          else dispatch r (spelled lead ((n, gap) ∷ args))))
unfolding dispatch unknown_command
dispatch-register r c lead n gap args blank spelling =
    let e : split_whitespace (spelled lead ((n, gap) ∷ args)) ≡ n ∷ words_of args =
      split-spelled lead ((n, gap) ∷ args) blank spelling in
    rw e (refl, dispatch_words-insert r c n (words_of args))
