-- ===== src/Poison/Severity.antt =====
-- The severity counts the rules that match, and not the distinct signatures.
use memguard_agent.Base.{
  ℕ, zero, suc, ◌≤◌, ◌≡◌, refl, ap, Bool, true, Option, List, [], ◌∷◌, arith, le→leb, length, keep,
  All,
}
use memguard_agent.Poison.Rules.{IsSignature, cleaned_signatures}
use memguard_agent.Poison.Scan.{scan_windows-keep}
use memguard_agent.Poison.{PoisonAnalyzer, with_rules, window_hit, scan_windows, severity}
use memguard_agent.Text.Lowercase.{Lowercase}
use memguard_agent.Text.{Text, codes}

abbrev pub replicate : ℕ → Text → List Text
replicate zero s = []
replicate (suc n) s = s ∷ replicate n s

replicate-IsSignature : (n : ℕ) (sig : Text) → IsSignature sig → All IsSignature (replicate n sig)
replicate-IsSignature zero sig h = tt
replicate-IsSignature (suc n) sig h = (h, replicate-IsSignature n sig h)

keep-replicate :
    (hit : Text → Bool) (n : ℕ) (sig : Text)
    → hit sig ≡ true
    → keep hit (replicate n sig) ≡ replicate n sig
keep-replicate hit zero sig h = refl
keep-replicate hit (suc n) sig h = rw (h, keep-replicate hit n sig h)

length-replicate : (n : ℕ) (sig : Text) → length (replicate n sig) ≡ n
length-replicate zero sig = refl
length-replicate (suc n) sig = ap suc (length-replicate n sig)

with_rules_signatures :
    (a : PoisonAnalyzer) (r : Text) (rules : List Text)
    → All IsSignature (r ∷ rules)
    → (with_rules a (r ∷ rules)).rules ≡ r ∷ rules
unfolding with_rules
with_rules_signatures a r rules h = rw (cleaned_signatures (r ∷ rules) h)

-- Rules that are one signature, three times or more, make each write whose windows carry it
-- CRITICAL.
pub repeated_rule_critical :
    (U : Lowercase) (a : PoisonAnalyzer) (head tail : Option Text) (sig : Text) (n : ℕ)
    → 3 ≤ n
    → IsSignature sig
    → window_hit U head tail sig ≡ true
    → severity (scan_windows U head tail (with_rules a (replicate n sig)).rules) ≡ codes "CRITICAL"
unfolding severity
repeated_rule_critical U a head tail sig zero h _ _ = absurd (omega arith)
repeated_rule_critical U a head tail sig (suc n) h s hit = rw (
  with_rules_signatures a sig (replicate n sig) (replicate-IsSignature (suc n) sig s),
  scan_windows-keep U head tail (replicate (suc n) sig),
  keep-replicate (window_hit U head tail) (suc n) sig hit,
  length-replicate n sig,
  le→leb 3 (suc n) h,
)
