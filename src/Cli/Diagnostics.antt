-- ===== src/Cli/Diagnostics.antt =====
-- overlay/collector/src/main.rs: the diagnostics that the terminal interface shows.
pub mod Ring
use memguard_agent.Base.{
  ℕ, Bool, false, not, Option, none, some, List, [], ◌∷◌, ◌++◌, map, reverse, ltb, if◌then◌else◌,
  length, take, is_empty, last?, keep,
}
use memguard_agent.Text.{Text, text_eq, lines, trim}

abbrev pub max_diagnostics : ℕ
max_diagnostics = 8

-- `while diagnostics.len() > MAX { diagnostics.pop_front(); }`
unfoldable pub pop_front_while : List Text → List Text
pop_front_while [] = []
pop_front_while (d ∷ ds) =
    let rest = pop_front_while ds in if ltb max_diagnostics (length (d ∷ ds)) then rest else d ∷ ds

abbrev pub is_last : Option Text → Text → Bool
is_last none message = false
is_last (some last) message = text_eq last message

unfoldable pub push_tui_diagnostic : List Text → Text → List Text
unfolding pop_front_while
push_tui_diagnostic diagnostics message =
    if is_last (last? diagnostics) message
    then diagnostics
    else pop_front_while (diagnostics ++ (message ∷ []))

-- `iter().rev().take(limit).cloned().collect()`, reversed
unfoldable pub recent_tui_diagnostics : List Text → ℕ → List Text
recent_tui_diagnostics diagnostics limit = reverse (take limit (reverse diagnostics))

unfoldable pub push_all : List Text → List Text → List Text
unfolding push_tui_diagnostic
push_all diagnostics [] = diagnostics
push_all diagnostics (m ∷ ms) = push_all (push_tui_diagnostic diagnostics m) ms

-- `TuiDiagnosticWriter::write`, on the decoded text of the buffer.
unfoldable pub write : List Text → Text → List Text
unfolding push_all
write diagnostics text =
    push_all diagnostics (keep (λ line. not (is_empty line)) (map trim (lines text)))

-- `TuiDiagnosticWriter::flush`
abbrev pub flush : List Text → List Text
flush diagnostics = diagnostics
