-- ===== src/Commands/Texts.antt =====
-- What src/commands and src/cli.rs use of Rust's texts: trimming, padding, joining, and the parser of
-- `u16`.
use cyphal_service.Common.{
  ℕ, ◌+◌, ◌-◌, ◌*◌, ◌^◌, Bool, true, ◌&&◌, Option, none, some, List, [], ◌∷◌, ◌++◌, if◌then◌else◌,
  length, replicate, Text, leb, ltb, ◌==◌,
}
use cyphal_service.Common.Decimal.{decimal}
use cyphal_service.Common.Int.{ℤ, pos, negsuc}
use cyphal_service.Commands.Registry.{is_whitespace}

-- `str::trim_start`.
unfoldable pub trim_start : Text → Text
trim_start [] = []
trim_start (c ∷ cs) = let rest = trim_start cs in if is_whitespace c then rest else c ∷ cs

-- Whether a text is white space throughout.
unfoldable pub is_blank : Text → Bool
is_blank [] = true
is_blank (c ∷ cs) = is_whitespace c && is_blank cs

-- `str::trim_end`.
unfoldable pub trim_end : Text → Text
unfolding is_blank
trim_end [] = []
trim_end (c ∷ cs) = let rest = trim_end cs in if is_blank (c ∷ cs) then [] else c ∷ rest

-- `str::trim`.
unfoldable pub trim : Text → Text
unfolding trim_start trim_end
trim s = trim_end (trim_start s)

-- `{name:<16}`.
abbrev pub padded : ℕ → Text → Text
padded n s = s ++ replicate (n - length s) 32

-- `.join(separator)`.
unfoldable pub join : Text → List Text → Text
join separator [] = []
join separator (t ∷ []) = t
join separator (t ∷ u ∷ ts) = t ++ (separator ++ join separator (u ∷ ts))

-- Rust's `{}` for an `i64`.
abbrev pub signed_decimal : ℤ → Text
signed_decimal (pos n) = decimal n
signed_decimal (negsuc n) = b'-' ∷ decimal (n + 1)

abbrev pub is_digit : ℕ → Bool
is_digit c = leb b'0' c && leb c b'9'

-- The digits of a `u16`, from the value of those before: `checked_mul` and `checked_add`.
unfoldable pub scan_u16 : ℕ → Text → Option ℕ
scan_u16 n [] = some n
scan_u16 n (c ∷ cs) =
    let rest = scan_u16 (n * 10 + (c - b'0')) cs in
    if is_digit c && ltb (n * 10 + (c - b'0')) (2 ^ 16) then rest else none

-- `str::parse::<u16>`: one plus sign may stand before the digits, of which there must be some.
unfoldable pub parse_u16 : Text → Option ℕ
unfolding scan_u16
parse_u16 [] = none
parse_u16 (c ∷ []) = if c == b'+' then none else scan_u16 0 (c ∷ [])
parse_u16 (c ∷ d ∷ cs) = scan_u16 0 (if c == b'+' then d ∷ cs else c ∷ d ∷ cs)
