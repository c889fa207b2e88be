-- ===== src/Text/Lowercase.antt =====
-- `str::to_lowercase`. Its Unicode tables are not part of the program, so it is a parameter, with
-- what is documented of it for the characters that the signatures are made of.
pub mod Ascii
use memguard_agent.Base.{ℕ, ◌+◌, ◌≤◌, ◌<◌, ◌&&◌, ◌++◌, map, ◌≡◌, ◌⊎◌, leb, if◌then◌else◌, All}
use memguard_agent.Text.{Text}

-- `u8::to_ascii_lowercase`
abbrev pub ascii_lower : ℕ → ℕ
ascii_lower c = if leb b'A' c && leb c b'Z' then c + 32 else c

-- ASCII, or a CJK unified ideograph: the case mapping of such a character depends on nothing
-- around it, and an ideograph has none.
abbrev pub IsPlain : ℕ → Type 0
IsPlain c = (c < 0x80) ⊎ ((0x4e00 ≤ c) × (c < 0xa000))

pub record Lowercase : Type 0 where
  pub to_lowercase : Text → Text
  pub lowercase_plain : (s : Text) → All IsPlain s → to_lowercase s ≡ map ascii_lower s
  pub lowercase_embeds :
      (before s after : Text)
      → All IsPlain s
      → (p : Text) × (q : Text) × (to_lowercase (before ++ (s ++ after))
          ≡ p ++ (map ascii_lower s ++ q))

-- Two texts that differ in the case of ASCII letters alone.
abbrev pub SameLetters : Text → Text → Type 0
SameLetters s t = map ascii_lower s ≡ map ascii_lower t
