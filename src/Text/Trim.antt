-- ===== src/Text/Trim.antt =====
-- Trimming leaves nothing to trim.
use memguard_agent.Base.{
  ℕ, ◌≡◌, refl, ap, ◌∙◌, inl, inr, Bool, true, false, [], ◌∷◌, ◌++◌, Bool-cases, All,
}
use memguard_agent.Text.{Text, is_whitespace, trim_start, cons_unless, trim_end_of, trim}

module _ (p : ℕ → Bool) where
  -- The last character, where there is one, is none that was to be trimmed.
  abbrev pub EndsClean : Text → Type 0
  EndsClean [] = Unit
  EndsClean (c ∷ []) = p c ≡ false
  EndsClean (c ∷ (d ∷ s)) = EndsClean (d ∷ s)

  cons_unless-EndsClean : (c : ℕ) (s : Text) → EndsClean s → EndsClean (cons_unless (p c) c s)
  unfolding cons_unless
  cons_unless-EndsClean c [] h = elim (Bool-cases (p c)) [ inl t ↦ rw t tt | inr f ↦ rw f f ]
  cons_unless-EndsClean c (d ∷ s) h = h

  pub trim_end_of-EndsClean : (s : Text) → EndsClean (trim_end_of p s)
  unfolding trim_end_of
  trim_end_of-EndsClean [] = tt
  trim_end_of-EndsClean (c ∷ s) =
      cons_unless-EndsClean c (trim_end_of p s) (trim_end_of-EndsClean s)

  pub trim_end_of_clean : (s : Text) → EndsClean s → trim_end_of p s ≡ s
  unfolding trim_end_of
  trim_end_of_clean [] h = refl
  trim_end_of_clean (c ∷ []) h = rw h
  trim_end_of_clean (c ∷ (d ∷ s)) h = ap (cons_unless (p c) c) (trim_end_of_clean (d ∷ s) h)

-- The first character, where there is one, is no white space.
abbrev pub StartsClean : Text → Type 0
StartsClean [] = Unit
StartsClean (c ∷ s) = is_whitespace c ≡ false

trim_start-StartsClean : (s : Text) → StartsClean (trim_start s)
unfolding trim_start
trim_start-StartsClean [] = tt
trim_start-StartsClean (c ∷ s) = elim (Bool-cases (is_whitespace c)) [
  | inl t ↦ rw t (trim_start-StartsClean s)
  | inr f ↦ rw f f
]

pub trim_start_clean : (s : Text) → StartsClean s → trim_start s ≡ s
unfolding trim_start
trim_start_clean [] h = refl
trim_start_clean (c ∷ s) h = rw h

cons_unless-false : (c : ℕ) (s : Text) → cons_unless false c s ≡ c ∷ s
unfolding cons_unless
cons_unless-false c [] = refl
cons_unless-false c (d ∷ s) = refl

trim_end_of-StartsClean : (s : Text) → StartsClean s → StartsClean (trim_end_of is_whitespace s)
unfolding trim_end_of
trim_end_of-StartsClean [] h = tt
trim_end_of-StartsClean (c ∷ s) h = rw (h, cons_unless-false c (trim_end_of is_whitespace s)) h

abbrev pub IsTrimmed : Text → Type 0
IsTrimmed s = StartsClean s × EndsClean is_whitespace s

pub trim-IsTrimmed : (s : Text) → IsTrimmed (trim s)
unfolding trim
trim-IsTrimmed s = (
  trim_end_of-StartsClean (trim_start s) (trim_start-StartsClean s),
  trim_end_of-EndsClean is_whitespace (trim_start s),
)

pub trim_trimmed : (s : Text) → IsTrimmed s → trim s ≡ s
unfolding trim
trim_trimmed s h =
    ap (trim_end_of is_whitespace) (trim_start_clean s h.0) ∙ trim_end_of_clean is_whitespace s h.1

pub trim-trim : (s : Text) → trim (trim s) ≡ trim s
trim-trim s = trim_trimmed (trim s) (trim-IsTrimmed s)

trim_end_of-All : (p : ℕ → Bool) (t : Text) → All (λ c. p c ≡ true) t → trim_end_of p t ≡ []
unfolding trim_end_of
trim_end_of-All p [] k = refl
trim_end_of-All p (c ∷ t) k = rw (trim_end_of-All p t k.1, k.0) (unfold cons_unless in refl)

-- Characters to trim, however many, are trimmed behind a text that needs no trimming.
pub trim_end_of-append :
    (p : ℕ → Bool) (t s : Text)
    → EndsClean p s
    → All (λ c. p c ≡ true) t
    → trim_end_of p (s ++ t) ≡ s
unfolding trim_end_of
trim_end_of-append p t [] h k = trim_end_of-All p t k
trim_end_of-append p t (c ∷ []) h k = rw (trim_end_of-All p t k, h)
trim_end_of-append p t (c ∷ (d ∷ s)) h k =
    ap (cons_unless (p c) c) (trim_end_of-append p t (d ∷ s) h k)
