-- ===== src/Runner/Log/Lines.antt =====
-- No line of a probe's output is lost without a word, and a preview is short.
use memguard_agent.Base.{
  ℕ, zero, suc, ◌+◌, ◌≤◌, ◌<◌, ◌≡◌, refl, ap, ◌∙◌, inl, inr, ◌&&◌, ◌||◌, Option, [], ◌∷◌, ◌++◌,
  arith, leb, leb→le, Bool-cases, Option-cases, is_some, is_none, length, take, drop, is_empty,
  length-append, take_all, length-take,
}
use memguard_agent.Json.{Json}
use memguard_agent.Runner.Log.{line_warning, looks_like_error}
use memguard_agent.Runner.Stream.{parse_trimmed}
use memguard_agent.Runner.{preview_line}
use memguard_agent.Text.{Text, codes, starts_with, ends_with_char}

-- A line that is blank or yields a value is passed without a warning, and every other line has one.
pub line_warning-parse_trimmed :
    (J : Json) (from_str : Text → Option J.Value) (parse_error : Text → Text) (line_count : ℕ)
    (trimmed : Text)
    → is_none (line_warning J from_str parse_error line_count trimmed)
      ≡ (is_empty trimmed || is_some (parse_trimmed J from_str trimmed))
unfolding line_warning parse_trimmed
line_warning-parse_trimmed J from_str parse_error line_count trimmed =
    elim (Bool-cases (is_empty trimmed)) [
      | inl blank ↦ rw blank refl
      | inr text ↦
          elim (Bool-cases (starts_with trimmed (b'{' ∷ []) && ends_with_char b'}' trimmed)) [
            | inl braces ↦ elim (Option-cases (from_str trimmed)) [
              | inl fails ↦ rw (text, braces, fails) refl
              | inr (v, parses) ↦ rw (text, braces, parses) refl
            ]
            | inr bare ↦ elim (Bool-cases (looks_like_error J from_str parse_error trimmed)) [
              | inl error ↦ rw (text, bare, error) refl
              | inr quiet ↦ rw (text, bare, quiet) refl
            ]
          ]
    ]

-- A cut at or behind the end leaves nothing, and only such a cut.
is_empty-drop : (n : ℕ) (s : Text) → is_empty (drop n s) ≡ leb (length s) n
is_empty-drop zero [] = refl
is_empty-drop zero (c ∷ s) = grind arith
is_empty-drop (suc n) [] = grind arith
is_empty-drop (suc n) (c ∷ s) = is_empty-drop n s ∙ grind arith

-- What stands behind a full cut changes nothing of it.
take-take_append : (n : ℕ) (s more : Text) → n ≤ length s → take n (take n s ++ more) ≡ take n s
take-take_append zero s more fits = refl
take-take_append (suc n) [] more fits = absurd (omega arith)
take-take_append (suc n) (c ∷ s) more fits = ap (◌∷◌ c) (take-take_append n s more (omega arith))

-- A preview is at most three characters longer than its limit, begins with the line as far as the limit
-- goes, and is the line itself where that fits.
pub preview_line_bounds :
    (s : Text) (max_chars : ℕ)
    → (length (preview_line s max_chars) ≤ max_chars + 3)
      × (take max_chars (preview_line s max_chars) ≡ take max_chars s)
      × (length s ≤ max_chars → preview_line s max_chars ≡ s)
unfolding preview_line
preview_line_bounds s max_chars = elim (Bool-cases (leb (length s) max_chars)) [
  | inl fits ↦
      let whole = take_all max_chars s (leb→le (length s) max_chars fits) in
      rw (is_empty-drop max_chars s, fits, whole, whole)
        (omega (arith, leb→le (length s) max_chars fits), refl, λ h. refl)
  | inr long ↦
      let beyond : max_chars < length s = ground arith in
      rw (is_empty-drop max_chars s, long)
        (
          omega (
            arith,
            length-append (take max_chars s) (codes "..."),
            length-take max_chars s,
            beyond,
          ),
          take-take_append max_chars s (codes "...") (omega (arith, beyond)),
          λ h. absurd (omega (arith, beyond, h)),
        )
]
