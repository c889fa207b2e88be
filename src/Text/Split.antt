-- ===== src/Text/Split.antt =====
-- Splitting what was joined.
use memguard_agent.Base.{
  ℕ, ◌≤◌, ◌≡◌, refl, ap, ◌∙◌, ◌≢◌, inl, inr, some, List, [], ◌∷◌, ◌++◌, arith, ◌==◌, ==_self,
  Bool-cases, length, All, All-append, Elem,
}
use memguard_agent.Text.{Text, onto_first, split, join, after_slashes}

-- The character does not stand in the text.
abbrev pub Lacks : ℕ → Text → Type 0
Lacks c s = All (λ d. d ≢ c) s

pub Lacks-append : (c : ℕ) (s t : Text) → Lacks c s → Lacks c t → Lacks c (s ++ t)
Lacks-append c s t hs ht = All-append (λ d. d ≢ c) s t hs ht

pub split-Lacks : (sep : ℕ) (s : Text) → Lacks sep s → split sep s ≡ s ∷ []
unfolding split
split-Lacks sep [] h = refl
split-Lacks sep (c ∷ s) h = ground (arith, split-Lacks sep s h.1)

pub split-append :
    (sep : ℕ) (s t : Text) → Lacks sep s → split sep (s ++ (sep ∷ t)) ≡ s ∷ split sep t
unfolding split
split-append sep [] t h = rw (==_self sep)
split-append sep (c ∷ s) t h = ground (arith, split-append sep s t h.1)

-- Texts without the separator are read back from what `join` makes of them.
pub split-join :
    (sep : ℕ) (l : Text) (ls : List Text)
    → All (Lacks sep) (l ∷ ls)
    → split sep (join (sep ∷ []) (l ∷ ls)) ≡ l ∷ ls
unfolding join
split-join sep l [] h = split-Lacks sep l h.0
split-join sep l (m ∷ ms) h =
    split-append sep l (join (sep ∷ []) (m ∷ ms)) h.0 ∙ ap (◌∷◌ l) (split-join sep m ms h.1)

length-onto_first : (c : ℕ) (ls : List Text) → length ls ≤ length (onto_first c ls)
unfolding onto_first
length-onto_first c [] = omega arith
length-onto_first c (l ∷ ls) = omega arith

pub split-pos : (sep : ℕ) (s : Text) → 1 ≤ length (split sep s)
unfolding split
split-pos sep [] = omega arith
split-pos sep (c ∷ s) = elim (Bool-cases (c == sep)) [
  | inl t ↦ rw t (omega arith)
  | inr f ↦ rw f (omega (arith, length-onto_first c (split sep s), split-pos sep s))
]

-- A separator in the text makes two parts or more.
pub split-Elem : (sep : ℕ) (s : Text) → Elem sep s → 2 ≤ length (split sep s)
unfolding split
split-Elem sep [] h = elim h [ ]
split-Elem sep (c ∷ s) (inl e) = rw (← e, ==_self sep) (omega (arith, split-pos sep s))
split-Elem sep (c ∷ s) (inr h) = elim (Bool-cases (c == sep)) [
  | inl t ↦ rw t (omega (arith, split-pos sep s))
  | inr f ↦ rw f (omega (arith, length-onto_first c (split sep s), split-Elem sep s h))
]

-- The part behind the first `//`, where the text in front has no slash.
pub after_slashes-append :
    (s t : Text) → Lacks b'/' s → after_slashes (s ++ (b'/' ∷ b'/' ∷ t)) ≡ some t
unfolding after_slashes
after_slashes-append [] [] h = refl
after_slashes-append [] (c ∷ t) h = refl
after_slashes-append (c ∷ s) t h = ground (arith, after_slashes-append s t h.1)
