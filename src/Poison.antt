-- ===== src/Poison.antt =====
-- overlay/ext/analysis/src/analyzers/poison.rs: `PoisonAnalyzer`.
pub mod Process
pub mod Rules
pub mod Range
pub mod Reports
pub mod Scan
pub mod Bag
pub mod Severity
pub mod Sound
pub mod Detect
pub mod Fields
pub mod Passes
mod Tests
use memguard_agent.Base.{
  ℕ, ◌+◌, ◌-◌, ◌*◌, ◌^◌, min, Bool, false, not, ◌&&◌, ◌||◌, List, [], ◌∷◌, ◌++◌, map, Option, none,
  some, leb, if◌then◌else◌, keep, is_empty, length, take, drop,
}
use memguard_agent.Event.{Files}
use memguard_agent.Text.Lowercase.{Lowercase}
use memguard_agent.Text.Utf8.{from_utf8_lossy}
use memguard_agent.Text.{Text, Bytes, codes, starts_with, contains, trim}

abbrev pub poison_signatures : List Text
poison_signatures =
    codes "免验证"
    ∷ codes "无需验证"
    ∷ codes "可直接导入"
    ∷ codes "已通过安全审查"
    ∷ codes "可信来源"
    ∷ codes "预批准"
    ∷ codes "trusted source"
    ∷ codes "pre-approved"
    ∷ codes "preapproved"
    ∷ codes "without validation"
    ∷ codes "skip validation"
    ∷ codes "no validation"
    ∷ codes "bypass validation"
    ∷ codes "auto import"
    ∷ codes "import directly"
    ∷ []

abbrev pub critical_severity_threshold : ℕ
critical_severity_threshold = 3

pub record PoisonAnalyzer : Type 0 where
  pub prefix : Text
  pub rules : List Text

unfoldable pub new : Text → PoisonAnalyzer
new prefix = record { prefix = prefix; rules = poison_signatures }

-- The test of a line in `filter(|r| !r.is_empty() && !r.starts_with('#'))`.
abbrev pub is_rule : Text → Bool
is_rule r = not (is_empty r) && not (starts_with r (b'#' ∷ []))

unfoldable pub with_rules : PoisonAnalyzer → List Text → PoisonAnalyzer
with_rules a rules =
    let cleaned = keep is_rule (map trim rules) in
    if not (is_empty cleaned) then record a { rules = cleaned } else a

-- `for sig in sigs { if hit { matched.push(sig.clone()) } }`
unfoldable pub push_matching : (Text → Bool) → List Text → List Text → List Text
push_matching hit matched [] = matched
push_matching hit matched (sig ∷ sigs) =
    push_matching hit (if hit sig then matched ++ (sig ∷ []) else matched) sigs

abbrev pub max_scan : ℕ
max_scan = 4 * 1024 * 1024

-- `u64::saturating_add`
abbrev pub saturating_add : ℕ → ℕ → ℕ
saturating_add a b = min (a + b) (2 ^ 64 - 1)

unfoldable pub severity : List Text → Text
severity matched =
    if leb critical_severity_threshold (length matched) then codes "CRITICAL" else codes "HIGH"

module _ (U : Lowercase) where
  open U use {to_lowercase}

  -- `window.map(|w| w.to_lowercase().contains(&needle)).unwrap_or(false)`
  abbrev pub window_contains : Option Text → Text → Bool
  window_contains none needle = false
  window_contains (some w) needle = contains (to_lowercase w) needle

  abbrev pub window_hit : Option Text → Option Text → Text → Bool
  window_hit head tail sig =
      let needle = to_lowercase sig in window_contains head needle || window_contains tail needle

  unfoldable pub scan_windows : Option Text → Option Text → List Text → List Text
  unfolding push_matching
  scan_windows head tail sigs = push_matching (window_hit head tail) [] sigs

  -- `data[start..end]`, decoded and in lower case
  abbrev pub chunk_of : Bytes → ℕ → ℕ → Text
  chunk_of bytes start end = to_lowercase (from_utf8_lossy (take (end - start) (drop start bytes)))

  abbrev pub chunk_hit : Text → Text → Bool
  chunk_hit chunk sig = contains chunk (to_lowercase sig)

  -- The scan of a file that could be read.
  unfoldable pub scan_bytes : Bytes → ℕ → ℕ → List Text → List Text
  unfolding push_matching
  scan_bytes bytes offset count sigs =
      let len = length bytes in
      let start = min offset len in
      let end = min (saturating_add offset (min count max_scan)) len in
      if leb end start then [] else push_matching (chunk_hit (chunk_of bytes start end)) [] sigs

  unfoldable pub scan_file_range : Files → Text → ℕ → ℕ → List Text → List Text
  unfolding scan_bytes
  scan_file_range files path offset count sigs = elim (files path) [
    | none ↦ []
    | some bytes ↦ scan_bytes bytes offset count sigs
  ]
