-- ===== src/Poison/Rules.antt =====
-- The signatures that an analyzer holds: `new` and `with_rules`.
use memguard_agent.Base.{
  ◌≡◌, refl, sym, ap, subst, ◌≢◌, ◌↔◌, inl, inr, true, false, List, [], ◌∷◌, map, if◌then◌else◌,
  Bool-cases, is_empty, keep, All, Elem, keep-Elem, Elem-keep,
}
use memguard_agent.Poison.{PoisonAnalyzer, poison_signatures, new, is_rule, with_rules}
use memguard_agent.Text.Trim.{IsTrimmed, trim-IsTrimmed, trim_trimmed}
use memguard_agent.Text.{Text, is_whitespace, trim}

-- The rules that a list of lines holds: trimmed, with comments and blank lines left out.
abbrev pub cleaned : List Text → List Text
cleaned rules = keep is_rule (map trim rules)

-- A signature that can be matched: a trimmed line, neither empty nor a comment.
abbrev pub IsSignature : Text → Type 0
IsSignature r = IsTrimmed r × (is_rule r ≡ true)

keep-IsSignature : (rules : List Text) → All IsSignature (cleaned rules)
keep-IsSignature [] = tt
keep-IsSignature (r ∷ rules) = elim (Bool-cases (is_rule (trim r))) [
  | inl t ↦ rw t ((trim-IsTrimmed r, t), keep-IsSignature rules)
  | inr f ↦ rw f (keep-IsSignature rules)
]

-- Clean rules are left as they are.
pub cleaned_signatures : (rules : List Text) → All IsSignature rules → cleaned rules ≡ rules
cleaned_signatures [] h = refl
cleaned_signatures (r ∷ rules) h = rw (trim_trimmed r h.0.0, h.0.1, cleaned_signatures rules h.1)

pub cleaned-cleaned : (rules : List Text) → cleaned (cleaned rules) ≡ cleaned rules
cleaned-cleaned rules = cleaned_signatures (cleaned rules) (keep-IsSignature rules)

poison_signatures-IsSignature : All IsSignature poison_signatures
unfolding is_whitespace
poison_signatures-IsSignature = (
  ((refl, refl), refl),
  (
    ((refl, refl), refl),
    (
      ((refl, refl), refl),
      (
        ((refl, refl), refl),
        (
          ((refl, refl), refl),
          (
            ((refl, refl), refl),
            (
              ((refl, refl), refl),
              (
                ((refl, refl), refl),
                (
                  ((refl, refl), refl),
                  (
                    ((refl, refl), refl),
                    (
                      ((refl, refl), refl),
                      (
                        ((refl, refl), refl),
                        (((refl, refl), refl), (((refl, refl), refl), (((refl, refl), refl), tt))),
                      ),
                    ),
                  ),
                ),
              ),
            ),
          ),
        ),
      ),
    ),
  ),
)

abbrev IsRules : List Text → Type 0
IsRules rules = All IsSignature rules × (rules ≢ [])

-- A new analyzer that is given any lines of rules has signatures, and none of them is blank, a
-- comment, or has white space at its ends.
pub with_rules-IsSignature :
    (prefix : Text) (rules : List Text)
    → All IsSignature (with_rules (new prefix) rules).rules
      × ((with_rules (new prefix) rules).rules ≢ [])
unfolding with_rules new
with_rules-IsSignature prefix rules = elim (Bool-cases (is_empty (cleaned rules))) [
  | inl t ↦ rw t (poison_signatures-IsSignature, λ e. cc)
  | inr f ↦ rw f (keep-IsSignature rules, λ e. absurd (is_empty_false (cleaned rules) f e))
]
  where
    is_empty_false : (rs : List Text) → is_empty rs ≡ false → rs ≢ []
    is_empty_false [] h = cc
    is_empty_false (r ∷ rs) h = λ e. cc

-- The rules that the lines give: each is the trimmed form of a line that is no comment.
cleaned-Elem :
    (sig : Text) (rules : List Text)
    → Elem sig (cleaned rules)
    → (line : Text) × Elem line rules × (trim line ≡ sig) × (is_rule sig ≡ true)
cleaned-Elem sig rules m =
    let r = Elem-keep is_rule sig (map trim rules) m in
    let (line, h, e) = of_map sig rules r.0 in (line, h, e, r.1)
  where
    of_map :
        (sig : Text) (rules : List Text)
        → Elem sig (map trim rules)
        → (line : Text) × Elem line rules × (trim line ≡ sig)
    of_map sig [] m = elim m [ ]
    of_map sig (l ∷ ls) (inl e) = (l, inl refl, sym e)
    of_map sig (l ∷ ls) (inr m) = let (k, h, e) = of_map sig ls m in (k, inr h, e)

Elem-map-trim :
    (line : Text) (rules : List Text) → Elem line rules → Elem (trim line) (map trim rules)
Elem-map-trim line [] m = elim m [ ]
Elem-map-trim line (l ∷ ls) (inl e) = inl (ap trim e)
Elem-map-trim line (l ∷ ls) (inr m) = inr (Elem-map-trim line ls m)

Elem-cleaned :
    (line : Text) (rules : List Text)
    → Elem line rules
    → is_rule (trim line) ≡ true
    → Elem (trim line) (cleaned rules)
Elem-cleaned line rules m h =
    keep-Elem is_rule (trim line) (map trim rules) (Elem-map-trim line rules m) h

-- If some line is a rule, the analyzer's signatures are exactly the trimmed lines that are rules,
-- and the ones it had before are gone.
pub with_rules-Elem :
    (a : PoisonAnalyzer) (rules : List Text) (line sig : Text)
    → Elem line rules
    → is_rule (trim line) ≡ true
    → Elem sig (with_rules a rules).rules
      ↔ ((l : Text) × Elem l rules × (trim l ≡ sig) × (is_rule sig ≡ true))
unfolding with_rules
with_rules-Elem a rules line sig m h =
    rw (not_empty (cleaned rules) (Elem-cleaned line rules m h)) (
      cleaned-Elem sig rules,
      λ x.
          subst (λ s. Elem s (cleaned rules)) x.2
            (Elem-cleaned x.0 rules x.1 (subst (λ s. is_rule s ≡ true) (sym x.2) x.3)),
    )
  where
    not_empty : (rs : List Text) → Elem (trim line) rs → is_empty rs ≡ false
    not_empty [] m = elim m [ ]
    not_empty (r ∷ rs) m = refl

-- Rules that are clean already are taken as they are.
pub with_rules_clean :
    (a : PoisonAnalyzer) (rules : List Text)
    → cleaned rules ≡ rules
    → (with_rules a rules).rules ≡ (if is_empty rules then a.rules else rules)
unfolding with_rules
with_rules_clean a rules h = elim (Bool-cases (is_empty rules)) [
  | inl t ↦ rw (h, t)
  | inr f ↦ rw (h, f)
]
