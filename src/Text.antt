-- ===== src/Text.antt =====
-- The operations of Rust's `str` and `String` that the program uses, over lists of Unicode scalar
-- values.
pub mod Decimal
pub mod Search
pub mod Split
pub mod Trim
pub mod Lowercase
pub mod Utf8
use Prim.Native.Char.{code}
use memguard_agent.Base.{
  ℕ, String, ◌≡◌, refl, ◌≢◌, ◌↔◌, Bool, true, false, ◌&&◌, ◌||◌, Option, none, some, List, [], ◌∷◌,
  ◌++◌, arith, leb, ◌==◌, if◌then◌else◌, drop,
}

abbrev pub Text : Type 0
Text = List ℕ

abbrev pub Bytes : Type 0
Bytes = List ℕ

-- The characters of a literal.
abbrev pub codes : String → Text
codes String.[] = []
codes (String.◌∷◌ c s) = code c ∷ codes s

-- `==` of strings.
abbrev pub text_eq : Text → Text → Bool
text_eq [] [] = true
text_eq [] (d ∷ t) = false
text_eq (c ∷ s) [] = false
text_eq (c ∷ s) (d ∷ t) = c == d && text_eq s t

pub text_eq_iff : (s t : Text) → (text_eq s t ≡ true) ↔ (s ≡ t)
text_eq_iff [] [] = ground arith
text_eq_iff [] (d ∷ t) = ground arith
text_eq_iff (c ∷ s) [] = ground arith
text_eq_iff (c ∷ s) (d ∷ t) = ground (arith, text_eq_iff s t)

pub text_eq_self : (s : Text) → text_eq s s ≡ true
text_eq_self s = (text_eq_iff s s).1 refl

pub text_ne : (s t : Text) → s ≢ t → text_eq s t ≡ false
text_ne s t h = ground (arith, text_eq_iff s t)

-- `str::starts_with`
abbrev pub starts_with : Text → Text → Bool
starts_with s [] = true
starts_with [] (p ∷ ps) = false
starts_with (c ∷ s) (p ∷ ps) = c == p && starts_with s ps

-- `str::ends_with` of one character
abbrev pub ends_with_char : ℕ → Text → Bool
ends_with_char c [] = false
ends_with_char c (d ∷ []) = d == c
ends_with_char c (d ∷ (e ∷ s)) = ends_with_char c (e ∷ s)

-- `str::contains`
unfoldable pub contains : Text → Text → Bool
contains [] p = starts_with [] p
contains (c ∷ s) p = starts_with (c ∷ s) p || contains s p

-- `char::is_whitespace`: the code points with the Unicode property White_Space.
unfoldable pub is_whitespace : ℕ → Bool
is_whitespace c =
    (leb 0x09 c && leb c 0x0d)
    || c == 0x20
    || c == 0x85
    || c == 0xa0
    || c == 0x1680
    || (leb 0x2000 c && leb c 0x200a)
    || c == 0x2028
    || c == 0x2029
    || c == 0x202f
    || c == 0x205f
    || c == 0x3000

-- `str::trim_start`, `str::trim_end` and `str::trim`
unfoldable pub trim_start : Text → Text
trim_start [] = []
trim_start (c ∷ s) = let rest = trim_start s in if is_whitespace c then rest else c ∷ s

-- `cons_unless drop c s` is `s` with `c` in front, unless it is to be dropped at the end.
unfoldable pub cons_unless : Bool → ℕ → Text → Text
cons_unless blank c [] = if blank then [] else c ∷ []
cons_unless blank c (d ∷ s) = c ∷ d ∷ s

unfoldable pub trim_end_of : (ℕ → Bool) → Text → Text
unfolding cons_unless
trim_end_of p [] = []
trim_end_of p (c ∷ s) = cons_unless (p c) c (trim_end_of p s)

unfoldable pub trim : Text → Text
unfolding is_whitespace trim_start trim_end_of
trim s = trim_end_of is_whitespace (trim_start s)

-- A first line with one more character in front.
unfoldable pub onto_first : ℕ → List Text → List Text
onto_first c [] = (c ∷ []) ∷ []
onto_first c (l ∷ ls) = (c ∷ l) ∷ ls

-- `str::split` at a character
unfoldable pub split : ℕ → Text → List Text
unfolding onto_first
split sep [] = [] ∷ []
split sep (c ∷ s) = let rest = split sep s in if c == sep then [] ∷ rest else onto_first c rest

-- `str::lines`: a line ends at `\n` or `\r\n`, and the last one may have no end.
unfoldable pub lines : Text → List Text
unfolding onto_first
lines [] = []
lines (c ∷ s) =
    let rest = lines s in
    if c == b'\n'
    then [] ∷ rest
    else if c == b'\r' && starts_with s (b'\n' ∷ [])
    then rest
    else onto_first c rest

-- `[T]::join`
unfoldable pub join : Text → List Text → Text
join sep [] = []
join sep (l ∷ []) = l
join sep (l ∷ (m ∷ ms)) = l ++ (sep ++ join sep (m ∷ ms))

-- The part behind the first `//`, the second half of what `split_once("//")` returns.
unfoldable pub after_slashes : Text → Option Text
after_slashes [] = none
after_slashes (c ∷ s) =
    let rest = after_slashes s in
    if c == b'/' && starts_with s (b'/' ∷ []) then some (drop 1 s) else rest
