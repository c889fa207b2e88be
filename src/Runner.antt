-- ===== src/Runner.antt =====
-- overlay/agentsight-capture/src/runners/common.rs: the events that a probe's output becomes.
pub mod Guard
pub mod System
pub mod Stream
pub mod Binary
pub mod Parse
pub mod Failure
pub mod Log
pub mod Run
mod Tests
use memguard_agent.Base.{
  ℕ, ◌+◌, ◌%◌, ◌^◌, Bool, false, Option, none, some, List, [], ◌∷◌, ◌++◌, if◌then◌else◌, unwrap_or,
  or_option, and_then, take, drop, is_empty,
}
use memguard_agent.Event.{Event, get_str, get_u64}
use memguard_agent.Json.{Json}
use memguard_agent.Text.{Text, codes, text_eq}

abbrev pub runner_error_type : Text
runner_error_type = codes "runner_error"

unfoldable pub preview_line : Text → ℕ → Text
preview_line line max_chars =
    if is_empty (drop max_chars line)
    then take max_chars line
    else take max_chars line ++ codes "..."

unfoldable pub runner_startup_exit_message : Text → Text → Bool → Text
runner_startup_exit_message label status needs_sudo =
    let message = label ++ (codes " exited during startup with " ++ status) in
    if needs_sudo
    then message
      ++ codes
          "; probe sudo is non-interactive, so run AgentSight with sudo or authenticate first with `sudo -v`"
    else message

-- `v as u32`
abbrev pub as_u32 : ℕ → ℕ
as_u32 v = v % 2 ^ 32

module _ (J : Json) where
  open J use {Value, get, as_u64, as_str, str, number, empty, insert}

  -- `now` is what `current_boot_time_ns` reads from the machine's uptime.
  unfoldable pub runner_error_json : ℕ → Text → Text → Value
  runner_error_json now runner message = insert (codes "message") (str message) (
      insert (codes "type") (str runner_error_type) (
        insert (codes "comm") (str runner) (
          insert (codes "pid") (number 0) (
            insert (codes "timestamp_ns") (number now)
              (insert (codes "timestamp") (number now) empty)))))

  abbrev pub is_text : Option Text → Text → Bool
  is_text none t = false
  is_text (some s) t = text_eq s t

  -- The error is its message.
  unfoldable pub runner_error_from_event : Event J → Option Text
  runner_error_from_event ev =
      if is_text (get_str J (codes "type") ev.content) runner_error_type
      then some (unwrap_or (get_str J (codes "message") ev.content) (codes "runner failed"))
      else none

  -- `raw.get(a).or_else(|| raw.get(b))`
  abbrev pub get_either : Text → Text → Value → Option Value
  get_either a b raw = or_option (get a raw) (get b raw)

  -- The event, and the error counter after `fetch_add`.
  unfoldable pub parse_error_event : ℕ → Text → Value → Text → ℕ → Event J × ℕ
  parse_error_event now runner raw reason errors =
      let timestamp =
        unwrap_or (and_then (get_either (codes "timestamp_ns") (codes "timestamp") raw) as_u64)
          now in
      let pid = as_u32 (unwrap_or (get_u64 J (codes "pid") raw) 0) in
      let comm = unwrap_or (get_str J (codes "comm") raw) runner in
      (
        record {
          timestamp = timestamp;
          source = codes "diagnostic";
          pid = pid;
          comm = comm;
          content = insert (codes "raw") raw (
              insert (codes "parse_error_count") (number (errors + 1)) (
                insert (codes "reason") (str reason) (
                  insert (codes "runner") (str runner)
                    (insert (codes "type") (str (codes "runner_parse_error")) empty))));
        },
        (errors + 1) % 2 ^ 64,
      )

  -- The three `let … else` of `parse_json_event`, on the fields that they read.
  unfoldable pub parse_fields :
      ℕ → Text → Text → Value → ℕ → Option ℕ → Option ℕ → Option Text → Event J × ℕ
  unfolding parse_error_event
  parse_fields now runner field raw errors none pid comm =
      parse_error_event now runner raw (codes "missing " ++ field) errors
  parse_fields now runner field raw errors (some timestamp) none comm =
      parse_error_event now runner raw (codes "missing pid") errors
  parse_fields now runner field raw errors (some timestamp) (some pid) none =
      parse_error_event now runner raw (codes "missing comm") errors
  parse_fields now runner field raw errors (some timestamp) (some pid) (some comm) = (
    record { timestamp = timestamp; source = runner; pid = as_u32 pid; comm = comm; content = raw },
    errors,
  )

  unfoldable pub parse_json_event : ℕ → Text → Text → Value → ℕ → Event J × ℕ
  unfolding parse_fields
  parse_json_event now runner timestamp_field raw errors =
      parse_fields now runner timestamp_field raw errors (get_u64 J timestamp_field raw)
        (get_u64 J (codes "pid") raw) (get_str J (codes "comm") raw)

  -- `json_stream.map(move |v| parse_json_event(source, ts_field, v, &errors))`; each value comes
  -- with the uptime at its turn.
  unfoldable pub parse_stream : Text → Text → List (ℕ × Value) → ℕ → List (Event J) × ℕ
  unfolding parse_json_event
  parse_stream runner field [] errors = ([], errors)
  parse_stream runner field ((now, v) ∷ vs) errors =
      let (ev, errors') = parse_json_event now runner field v errors in
      let (evs, last) = parse_stream runner field vs errors' in (ev ∷ evs, last)
