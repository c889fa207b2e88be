-- ===== src/Runner/Stream.antt =====
-- overlay/agentsight-capture/src/runners/common.rs: the stream of `get_json_stream`, over what the
-- reads of the probe's output return. Logging is left out.
pub mod Lines
use memguard_agent.Base.{
  ℕ, Bool, true, false, not, ◌&&◌, Option, none, some, List, [], ◌∷◌, ◌++◌, if◌then◌else◌, is_empty,
}
use memguard_agent.Json.{Json}
use memguard_agent.Runner.{runner_error_json}
use memguard_agent.Text.Utf8.{from_utf8_lossy}
use memguard_agent.Text.{Text, Bytes, codes, starts_with, ends_with_char, trim}

-- What `read_until(b'\n', &mut line)` returns: a line, nothing at the end of the output, or an error,
-- which may be an interruption.
pub data Read : Type 0 where
  line : Bytes → Read
  end_of_output : Read
  interrupted : Read
  failed : Read

-- What `child.wait()` returns: whether the status is a success and how it reads, or an error.
pub data Wait : Type 0 where
  exited : Bool → Text → Wait
  wait_failed : Text → Wait

module _ (J : Json) where
  -- What is yielded behind the loop, once the probe is gone.
  unfoldable pub after_exit : ℕ → Text → Wait → List J.Value
  after_exit now label (exited success status) =
      if not success
      then runner_error_json J now label (label ++ (codes " exited with " ++ status)) ∷ []
      else []
  after_exit now label (wait_failed e) =
      runner_error_json J now label (codes "failed to wait for " ++ (label ++ (codes ": " ++ e)))
      ∷ []

module _ (J : Json) (from_str : Text → Option J.Value) where
  open J use {Value}

  unfoldable pub parse_trimmed : Text → Option Value
  parse_trimmed trimmed =
      let parsed = from_str trimmed in
      if is_empty trimmed
      then none
      else if starts_with trimmed (b'{' ∷ []) && ends_with_char b'}' trimmed
      then parsed
      else none

  -- The value that a line yields.
  unfoldable pub parse_line : Bytes → Option Value
  unfolding parse_trimmed
  parse_line bytes = parse_trimmed (trim (from_utf8_lossy bytes))

  abbrev pub yield : Option Value → List Value → List Value
  yield none later = later
  yield (some v) later = v ∷ later

  -- The values that the loop yields, and whether it ended. It does not where the reads run out: the
  -- next read still waits.
  unfoldable pub read_loop : List Read → List Value × Bool
  unfolding parse_line
  read_loop [] = ([], false)
  read_loop (line bytes ∷ reads) =
      let (later, ended) = read_loop reads in (yield (parse_line bytes) later, ended)
  read_loop (end_of_output ∷ reads) = ([], true)
  read_loop (interrupted ∷ reads) = read_loop reads
  read_loop (failed ∷ reads) = ([], true)

  unfoldable pub json_stream : ℕ → Text → List Read → Wait → List Value
  unfolding read_loop after_exit
  json_stream now label reads wait =
      let (values, ended) = read_loop reads in
      if ended then values ++ after_exit J now label wait else values
