-- ===== src/Pnp/Hex.antt =====
-- src/pnp/db.rs: the hexadecimal text of a unique ID, and the placeholder that a v1 hash makes.
use cyphal_service.Common.{
  ℕ, ◌+◌, ◌-◌, ◌/◌, ◌%◌, ◌^◌, ◌<◌, ◌≡◌, refl, ap₂, List, [], ◌∷◌, ◌++◌, arith, ltb, if◌then◌else◌,
  Text, take, drop, replicate, All,
}

abbrev pub IsByte : ℕ → Type 0
IsByte b = b < 256

-- One digit of `{:02x}`.
unfoldable pub hex_digit : ℕ → ℕ
hex_digit d = if ltb d 10 then b'0' + d else b'a' + (d - 10)

unfoldable pub bytes_to_hex : List ℕ → Text
bytes_to_hex [] = []
bytes_to_hex (b ∷ bs) = hex_digit (b / 16) ∷ hex_digit (b % 16) ∷ bytes_to_hex bs

-- `u64::to_be_bytes`.
unfoldable pub to_be_bytes : ℕ → List ℕ
to_be_bytes w =
    w / 2 ^ 56 % 256
    ∷ w / 2 ^ 48 % 256
    ∷ w / 2 ^ 40 % 256
    ∷ w / 2 ^ 32 % 256
    ∷ w / 2 ^ 24 % 256
    ∷ w / 2 ^ 16 % 256
    ∷ w / 2 ^ 8 % 256
    ∷ w % 256
    ∷ []

-- Ten zero bytes, then the lower six bytes of the hash.
unfoldable pub pad_hash : ℕ → List ℕ
pad_hash hash = replicate 10 0 ++ take 6 (drop 2 (to_be_bytes hash))

hex_digit_injective : (c d : ℕ) → c < 16 → d < 16 → hex_digit c ≡ hex_digit d → c ≡ d
unfolding hex_digit
hex_digit_injective c d hc hd e = ground arith

cons_injective : {a b : ℕ} {s t : Text} → a ∷ s ≡ b ∷ t → (a ≡ b) × (s ≡ t)
cons_injective e = (cc, cc)

byte_of_digits :
    (b c : ℕ)
    → IsByte b
    → IsByte c
    → hex_digit (b / 16) ≡ hex_digit (c / 16)
    → hex_digit (b % 16) ≡ hex_digit (c % 16)
    → b ≡ c
byte_of_digits b c hb hc e f =
    let high = hex_digit_injective (b / 16) (c / 16) (omega arith) (omega arith) e in
    let low = hex_digit_injective (b % 16) (c % 16) (omega arith) (omega arith) f in
    omega (arith, high, low)

-- Two lists of bytes with the same text are the same list.
pub bytes_to_hex_injective :
    (xs ys : List ℕ) → All IsByte xs → All IsByte ys → bytes_to_hex xs ≡ bytes_to_hex ys → xs ≡ ys
unfolding bytes_to_hex
bytes_to_hex_injective [] [] hx hy e = refl
bytes_to_hex_injective [] (y ∷ ys) hx hy e = cc
bytes_to_hex_injective (x ∷ xs) [] hx hy e = cc
bytes_to_hex_injective (x ∷ xs) (y ∷ ys) hx hy e =
    let (high, tail) = cons_injective e in
    let (low, rest) = cons_injective tail in
    ap₂ ◌∷◌ (byte_of_digits x y hx.0 hy.0 high low) (bytes_to_hex_injective xs ys hx.1 hy.1 rest)

pub pad_hash-IsByte : (hash : ℕ) → All IsByte (pad_hash hash)
unfolding pad_hash to_be_bytes
pad_hash-IsByte hash = omega arith

-- The placeholder keeps the lower 48 bits of the hash, and no others.
pub pad_hash_injective :
    (g h : ℕ) → g < 2 ^ 64 → h < 2 ^ 64 → pad_hash g ≡ pad_hash h → g % 2 ^ 48 ≡ h % 2 ^ 48
unfolding pad_hash to_be_bytes
pad_hash_injective g h hg hh e = ground arith

pub take-pad_hash : (hash : ℕ) → take 10 (pad_hash hash) ≡ replicate 10 0
unfolding pad_hash
take-pad_hash hash = refl

-- Sixteen zero bytes are `"0".repeat(32)`.
pub bytes_to_hex-zeros : replicate 32 b'0' ≡ bytes_to_hex (replicate 16 0)
unfolding bytes_to_hex hex_digit
bytes_to_hex-zeros = refl
