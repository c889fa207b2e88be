-- ===== src/Text/Utf8.antt =====
-- UTF-8: `str::as_bytes`, and `String::from_utf8_lossy`, which puts U+FFFD in the place of each
-- maximal ill-formed sequence.
pub mod Chars
pub mod Embeds
pub mod Parts
use memguard_agent.Base.{
  ℕ, ◌+◌, ◌-◌, ◌*◌, ◌/◌, ◌%◌, ◌≤◌, ◌<◌, ◌&&◌, [], ◌∷◌, ◌++◌, ◌⊎◌, leb, ltb, ◌==◌, if◌then◌else◌,
}
use memguard_agent.Text.{Text, Bytes}

-- A Unicode scalar value.
abbrev pub IsScalar : ℕ → Type 0
IsScalar c = (c < 0xd800) ⊎ ((0xe000 ≤ c) × (c < 0x110000))

unfoldable pub encode_char : ℕ → Bytes
encode_char c =
    if ltb c 0x80
    then c ∷ []
    else if ltb c 0x800
    then (0xc0 + c / 64) ∷ (0x80 + c % 64) ∷ []
    else if ltb c 0x10000
    then (0xe0 + c / 4096) ∷ (0x80 + c / 64 % 64) ∷ (0x80 + c % 64) ∷ []
    else (0xf0 + c / 262144) ∷ (0x80 + c / 4096 % 64) ∷ (0x80 + c / 64 % 64) ∷ (0x80 + c % 64) ∷ []

-- `str::as_bytes`
unfoldable pub as_bytes : Text → Bytes
as_bytes [] = []
as_bytes (c ∷ s) = encode_char c ++ as_bytes s

-- The decoder between two bytes: at the start of a character, or with the bounds of the next byte,
-- the bytes that are left, and the bits read.
pub data Decoder : Type 0 where
  idle : Decoder
  more : ℕ → ℕ → ℕ → ℕ → Decoder

abbrev pub replacement : ℕ
replacement = 0xfffd

unfoldable pub first_byte : ℕ → Text × Decoder
first_byte b =
    if ltb b 0x80
    then (b ∷ [], idle)
    else if ltb b 0xc2
    then (replacement ∷ [], idle)
    else if ltb b 0xe0
    then ([], more 0x80 0xbf 1 (b - 0xc0))
    else if ltb b 0xf0
    then (
      [],
      more (if b == 0xe0 then 0xa0 else 0x80) (if b == 0xed then 0x9f else 0xbf) 2 (b - 0xe0),
    )
    else if ltb b 0xf5
    then (
      [],
      more (if b == 0xf0 then 0x90 else 0x80) (if b == 0xf4 then 0x8f else 0xbf) 3 (b - 0xf0),
    )
    else (replacement ∷ [], idle)

unfoldable pub next_byte : Decoder → ℕ → Text × Decoder
unfolding first_byte
next_byte idle b = first_byte b
next_byte (more lo hi left bits) b =
    if leb lo b && leb b hi
    then (let bits' = bits * 64 + (b - 0x80) in
        if left == 1 then (bits' ∷ [], idle) else ([], more 0x80 0xbf (left - 1) bits'))
    else (replacement ∷ (first_byte b).0, (first_byte b).1)

unfoldable pub at_end : Decoder → Text
at_end idle = []
at_end (more lo hi left bits) = replacement ∷ []

unfoldable pub decode : Decoder → Bytes → Text
unfolding next_byte at_end
decode d [] = at_end d
decode d (b ∷ bs) = (next_byte d b).0 ++ decode (next_byte d b).1 bs

-- `String::from_utf8_lossy`
unfoldable pub from_utf8_lossy : Bytes → Text
unfolding decode
from_utf8_lossy = decode idle
