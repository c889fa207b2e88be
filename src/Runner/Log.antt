-- ===== src/Runner/Log.antt =====
-- overlay/agentsight-capture/src/runners/common.rs: the warnings about a probe's output, which are what
-- is left of a line that becomes no event, and about its error output.
pub mod Lines
use memguard_agent.Base.{
  ℕ, ◌-◌, Bool, not, ◌&&◌, ◌||◌, Option, none, some, List, [], ◌∷◌, ◌++◌, if◌then◌else◌, is_empty,
}
use memguard_agent.Json.{Json}
use memguard_agent.Runner.{preview_line}
use memguard_agent.Text.Decimal.{to_string}
use memguard_agent.Text.{Text, codes, starts_with, ends_with_char, contains, trim}

-- `parse_error` is how the error of `serde_json::from_str` for a text reads.
module _ (J : Json) (from_str : Text → Option J.Value) (parse_error : Text → Text) where
  abbrev pub failed_to_parse : ℕ → Text → Text
  failed_to_parse line_count trimmed =
      codes "Failed to parse JSON from line "
      ++ (to_string line_count
          ++ (codes ": "
              ++ (parse_error trimmed ++ (codes " - Line: " ++ preview_line trimmed 200))))

  abbrev pub possible_error : ℕ → Text → Text
  possible_error line_count trimmed =
      codes "Possible error message from binary at line "
      ++ (to_string line_count ++ (codes ": " ++ trimmed))

  abbrev pub skipping : ℕ → Text → Text
  skipping line_count trimmed =
      codes "Skipping non-JSON line "
      ++ (to_string line_count ++ (codes " from binary: " ++ preview_line trimmed 100))

  abbrev pub looks_like_error : Text → Bool
  looks_like_error s =
      contains s (codes "error")
      || contains s (codes "warn")
      || contains s (codes "failed")
      || contains s (codes "Error:")

  -- The warning about the line of that number, if there is one.
  unfoldable pub line_warning : ℕ → Text → Option Text
  line_warning line_count trimmed =
      if is_empty trimmed
      then none
      else if starts_with trimmed (b'{' ∷ []) && ends_with_char b'}' trimmed
      then elim (from_str trimmed) [
        | none ↦ some (failed_to_parse line_count trimmed)
        | some v ↦ none
      ]
      else if looks_like_error trimmed
      then some (possible_error line_count trimmed)
      else some (skipping line_count trimmed)

-- What `read_line` of the error output returns: a line, its end, or an error, which is an unexpected
-- end or not.
pub data StderrRead : Type 0 where
  stderr_line : Text → StderrRead
  stderr_end : StderrRead
  stderr_failed : Bool → Text → StderrRead

-- The warnings of the task that reads the error output.
unfoldable pub stderr_warnings : Text → List StderrRead → List Text
unfolding trim
stderr_warnings label [] = []
stderr_warnings label (stderr_end ∷ reads) = []
stderr_warnings label (stderr_failed unexpected_eof e ∷ reads) =
    if not unexpected_eof then (codes "Error reading stderr: " ++ e) ∷ [] else []
stderr_warnings label (stderr_line s ∷ reads) =
    let later = stderr_warnings label reads in
    let trimmed = trim s in
    if not (is_empty trimmed)
    then (codes "[" ++ (label ++ (codes "] STDERR: " ++ trimmed))) ∷ later
    else later
