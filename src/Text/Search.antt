-- ===== src/Text/Search.antt =====
-- What `contains` finds.
use memguard_agent.Base.{true, [], ◌∷◌, ◌++◌, ◌≡◌, inl, inr, refl, ap, arith, ==_self, Bool-cases}
use memguard_agent.Text.{Text, starts_with, contains}

pub starts_with-append : (p s : Text) → starts_with (p ++ s) p ≡ true
starts_with-append [] s = starts_nil s
  where
    starts_nil : (s : Text) → starts_with s [] ≡ true
    starts_nil [] = refl
    starts_nil (c ∷ s) = refl
starts_with-append (c ∷ p) s = rw (==_self c) (starts_with-append p s)

contains-here : (s p : Text) → starts_with s p ≡ true → contains s p ≡ true
unfolding contains
contains-here [] p h = h
contains-here (c ∷ s) p h = rw h

-- A text that stands anywhere in another is found.
pub contains-append : (before p after : Text) → contains (before ++ (p ++ after)) p ≡ true
unfolding contains
contains-append [] p after = contains-here (p ++ after) p (starts_with-append p after)
contains-append (c ∷ before) p after = ground (arith, contains-append before p after)

pub starts_with-split : (s p : Text) → starts_with s p ≡ true → (after : Text) × (s ≡ p ++ after)
starts_with-split s [] h = (s, refl)
starts_with-split [] (d ∷ p) h = absurd (ground arith)
starts_with-split (c ∷ s) (d ∷ p) h =
    let (after, e) = starts_with-split s p (ground arith) in (after, ground arith)

-- What is found stands in the text.
pub contains-split :
    (s p : Text)
    → contains s p ≡ true
    → (before : Text) × (after : Text) × (s ≡ before ++ (p ++ after))
unfolding contains
contains-split [] p h = let (after, e) = starts_with-split [] p h in ([], after, e)
contains-split (c ∷ s) p h = elim (Bool-cases (starts_with (c ∷ s) p)) [
  | inl t ↦ let (after, e) = starts_with-split (c ∷ s) p t in ([], after, e)
  | inr f ↦
      let (before, after, e) = contains-split s p (rw f at h) in (c ∷ before, after, ap (◌∷◌ c) e)
]
