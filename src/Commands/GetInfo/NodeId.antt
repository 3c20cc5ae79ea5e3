-- ===== src/Commands/GetInfo/NodeId.antt =====
-- src/commands/get_info.rs: what an operator is told who gives a node ID as the other commands print
-- it.
use mathlib.Core.List.{append_assoc, append-nil}
use cyphal_service.Common.{
  ℕ, zero, suc, ◌+◌, ◌/◌, ◌%◌, ◌^◌, ◌≤◌, ◌<◌, ◌≡◌, ◌≢◌, refl, sym, ap, ◌∙◌, subst, true, false,
  Option, none, some, List, [], ◌∷◌, ◌++◌, map, arith, if◌then◌else◌, Text, text, text_eq,
  eq_of_text_eq, text_eq_refl, All, Result, ok, err, ltb, ◌==◌, Bool-cases, inl, inr,
}
use cyphal_service.Common.Decimal.{digits_of, decimal}
use cyphal_service.Commands.Texts.{join, scan_u16, parse_u16}
use cyphal_service.Commands.Selection.{unknown_transport}
use cyphal_service.Commands.GetInfo.{
  Asked, find_named, ask, info_text, result_text, get_info_execute,
}
use cyphal_service.Pnp.Hex.{bytes_to_hex}
use cyphal_service.Transport.State.{GetInfoResult}
use cyphal_service.Transport.Handle.{Reply, stopped, silent, replied, get_info}

-- Scanning the digits of a number, and what follows them.
scan_u16-digits_of :
    (fuel n : ℕ) (rest : Text)
    → n ≤ fuel
    → scan_u16 0 (digits_of fuel n ++ rest) ≡ (if ltb n (2 ^ 16) then scan_u16 n rest else none)
unfolding scan_u16 digits_of
scan_u16-digits_of zero n rest h = ground arith
scan_u16-digits_of (suc fuel) n rest h = elim (Bool-cases (ltb n 10)) [
  | inl small ↦ rw small (ground arith)
  | inr large ↦
      rw
        (
          large,
          append_assoc (digits_of fuel (n / 10)) ((b'0' + n % 10) ∷ []) rest,
          scan_u16-digits_of fuel (n / 10) ((b'0' + n % 10) ∷ rest) (omega (arith)),
        )
        (ground arith)
]

-- The first character of a number is a digit.
digits_of-first : (fuel n : ℕ) → (c : ℕ) × (cs : Text) × (digits_of fuel n ≡ c ∷ cs) × (b'0' ≤ c)
unfolding digits_of
digits_of-first zero n = (b'0' + n % 10, [], refl, omega arith)
digits_of-first (suc fuel) n =
    let f = digits_of-first fuel (n / 10) in
    elim (Bool-cases (ltb n 10)) [
      | inl small ↦ rw small (b'0' + n, [], refl, omega arith)
      | inr large ↦
          rw large (f.0, f.1 ++ (b'0' + n % 10) ∷ [], ap (λ t. t ++ (b'0' + n % 10) ∷ []) f.2, f.3)
    ]

parse_u16-scan_u16 :
    (s : Text) (c : ℕ) (cs : Text) → s ≡ c ∷ cs → b'0' ≤ c → parse_u16 s ≡ scan_u16 0 s
unfolding parse_u16
parse_u16-scan_u16 s c cs e h =
    let no_sign : (c == b'+') ≡ false = ground arith in rw e (unsigned cs no_sign)
  where
    unsigned : (cs : Text) → (c == b'+') ≡ false → parse_u16 (c ∷ cs) ≡ scan_u16 0 (c ∷ cs)
    unsigned [] no_sign = rw no_sign refl
    unsigned (d ∷ cs) no_sign = rw no_sign refl

parse_u16-decimal : (n : ℕ) → parse_u16 (decimal n) ≡ (if ltb n (2 ^ 16) then some n else none)
unfolding decimal scan_u16
parse_u16-decimal n =
    let f = digits_of-first n n in
    parse_u16-scan_u16 (digits_of n n) f.0 f.1 f.2 f.3
    ∙ ap (scan_u16 0) (sym (append-nil (digits_of n n)))
    ∙ scan_u16-digits_of n n [] (omega arith)

abbrev pub together : List Text → Text
together [] = []
together (t ∷ []) = t
together (t ∷ u ∷ ts) = t ++ together (u ∷ ts)

abbrev pub version : ℕ × ℕ → Text
version v = together (decimal v.0 ∷ text "." ∷ decimal v.1 ∷ [])

-- How the operator reads what comes of a call.
abbrev pub reading : Reply (Result GetInfoResult Text) → Text
reading stopped = text "GetInfo failed: transport worker has stopped"
reading silent = text "GetInfo failed: timed out waiting for GetInfo response"
reading (replied (err e)) = text "GetInfo failed: " ++ e
reading (replied (ok info)) = together (
    text "Node "
    ∷ decimal info.node_id
    ∷ text "  ("
    ∷ info.name
    ∷ text ")"
    ∷ (10 ∷ text "Hardware : ")
    ∷ version info.hardware_version
    ∷ (10 ∷ text "Software : ")
    ∷ version info.software_version
    ∷ (10 ∷ text "Unique ID: ")
    ∷ join (text ":") (map (λ b. bytes_to_hex (b ∷ [])) info.unique_id)
    ∷ [])

abbrev pub IsUnnamed : Text → List Asked → Type 0
IsUnnamed name hs = All (λ h. h.0.name ≢ name) hs

-- What the operator is told who asks the transport of a name for the node of a number.
pub data Told (hs : List Asked) (name : Text) (n : ℕ) (t : Text) : Type 0 where
  -- The number is no `u16`.
  refused :
      2 ^ 16 ≤ n
      → t ≡ together (text "Invalid node ID '" ∷ decimal n ∷ text "': must be a number" ∷ [])
      → Told hs name n t
  -- No transport has the name: all are named.
  unknown :
      n < 2 ^ 16
      → IsUnnamed name hs
      → t
        ≡ together (
            text "Unknown transport '"
            ∷ name
            ∷ text "'. Available: "
            ∷ join (text ", ") (map (λ h. h.0.name) hs)
            ∷ [])
      → Told hs name n t
  -- What the first transport of the name says of the node of exactly that number.
  answered :
      n < 2 ^ 16
      → (before : List Asked) (h : Asked) (after : List Asked) → hs ≡ before ++ h ∷ after
      → IsUnnamed name before
      → h.0.name ≡ name
      → t ≡ reading (h.1 n)
      → Told hs name n t

text_ne : (s t : Text) → text_eq s t ≡ false → s ≢ t
text_ne s t h e = absurd (ground (arith, subst (λ u. text_eq s u ≡ true) e (text_eq_refl s)))

result_text-reading : (r : Reply (Result GetInfoResult Text)) → result_text (get_info r) ≡ reading r
unfolding result_text info_text get_info
result_text-reading stopped = refl
result_text-reading silent = refl
result_text-reading (replied (ok info)) = refl
result_text-reading (replied (err e)) = refl

-- The first handle of a name stands after handles of other names.
data Found (name : Text) (hs : List Asked) (o : Option Asked) : Type 0 where
  missing : o ≡ none → IsUnnamed name hs → Found name hs o
  first :
      (before : List Asked) (h : Asked) (after : List Asked)
      → o ≡ some h
      → hs ≡ before ++ h ∷ after
      → IsUnnamed name before
      → h.0.name ≡ name
      → Found name hs o

find_named-Found : (name : Text) (hs : List Asked) → Found name hs (find_named name hs)
unfolding find_named
find_named-Found name [] = missing refl tt
find_named-Found name (k ∷ hs) = elim (Bool-cases (text_eq k.0.name name)) [
  | inl same ↦ rw same (first [] k hs refl refl tt (eq_of_text_eq k.0.name name same))
  | inr other ↦ rw other (later (text_ne k.0.name name other) (find_named-Found name hs))
]
  where
    later : {o : Option Asked} → k.0.name ≢ name → Found name hs o → Found name (k ∷ hs) o
    later far (missing e none_named) = missing e (far, none_named)
    later far (first before h after e split none_named named) =
        first (k ∷ before) h after e (ap (◌∷◌ k) split) (far, none_named) named

ask-Told :
    (hs : List Asked) (name : Text) (n : ℕ) (o : Option Asked)
    → n < 2 ^ 16
    → Found name hs o
    → Told hs name n (ask o n (unknown_transport name (map (λ h. h.0.name) hs)))
unfolding unknown_transport
ask-Told hs name n o fits (missing e none_named) = rw e (unknown fits none_named refl)
ask-Told hs name n o fits (first before h after e split none_named named) =
    rw e (answered fits before h after split none_named named (result_text-reading (h.1 n)))

-- Given a number in decimals, `get-info` tells what the first transport of the given name answers
-- for the node of exactly that number: its information, or the error. Where no transport has the
-- name it names all that there are, and a number that is no `u16` is refused, whatever the
-- transports.
pub get_info_execute-decimal :
    (hs : List Asked) (name : Text) (n : ℕ) (rest : List Text)
    → Told hs name n (get_info_execute hs (name ∷ decimal n ∷ rest))
unfolding get_info_execute
get_info_execute-decimal hs name n rest = elim (Bool-cases (ltb n (2 ^ 16))) [
  | inl fits ↦
      rw (get_info_execute, parse_u16-decimal n, fits)
        (ask-Told hs name n (find_named name hs) (ground arith) (find_named-Found name hs))
  | inr large ↦ rw (get_info_execute, parse_u16-decimal n, large) (refused (ground arith) refl)
]
