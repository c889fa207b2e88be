-- ===== src/Runner/Run.antt =====
-- overlay/agentsight-capture/src/runners/common.rs: `get_json_stream` and `BinaryRunner::run` as a whole,
-- from the command line to the stream of events. A started process is what the system tells of it.
pub mod Events
pub mod Signals
use memguard_agent.Base.{ℕ, ◌+◌, Bool, true, false, Option, List, [], ◌∷◌, ◌++◌, unwrap_or}
use memguard_agent.Base.Result.{Result, ok, ◌>>=◌, map_err}
use memguard_agent.Event.{Event}
use memguard_agent.Json.{Json}
use memguard_agent.Runner.Binary.{
  BinaryExecutor, BinaryRunner, TryWait, command, startup_delay_ms, startup_check,
  process_through_analyzers,
}
use memguard_agent.Runner.Guard.{Use, disarms, terminates, Signal, new, live_guard}
use memguard_agent.Runner.Stream.{Read, Wait, exited, wait_failed, json_stream}
use memguard_agent.Runner.{parse_stream}
use memguard_agent.Text.{Text, codes}

pub record Child : Type 0 where
  pub pid : Option ℕ
  -- What `try_wait` gives behind the startup delay.
  pub tried : TryWait
  pub reads : List Read
  pub wait : Wait
  -- The uptime when the process is gone, and when each value is read.
  pub uptime : ℕ
  pub uptime_at : ℕ → ℕ

-- `file_name` is the last component of a path, where it has one that is UTF-8.
unfoldable pub runner_label : (Text → Option Text) → Option Text → Text → Text
runner_label file_name runner_name binary_path =
    unwrap_or runner_name (unwrap_or (file_name binary_path) (codes "binary"))

-- What the stream does with its guard once it is polled: it terminates the group behind the loop, and
-- disarms the guard if the wait succeeds. A stream that is dropped before does nothing with it.
abbrev pub guard_uses : Bool → Wait → List Use
guard_uses false w = []
guard_uses true (exited success status) = terminates ∷ disarms ∷ []
guard_uses true (wait_failed e) = terminates ∷ []

-- The signals of a stream, from its first poll on.
unfoldable pub stream_signals : Bool → Child → Bool → List Signal
unfolding live_guard new
stream_signals needs_sudo child to_the_end =
    live_guard (new child.pid needs_sudo) (guard_uses to_the_end child.wait)

module _ (J : Json) where
  -- The values of a stream with the uptime at each, from the given number on.
  abbrev pub stamped : (ℕ → ℕ) → ℕ → List J.Value → List (ℕ × J.Value)
  stamped at n [] = []
  stamped at n (v ∷ vs) = (at n, v) ∷ stamped at (n + 1) vs

  module _ (from_str : Text → Option J.Value) (file_name : Text → Option Text) (needs_sudo : Bool)
      (spawn : List Text → Result Child) where
    unfoldable pub get_json_stream : BinaryExecutor → Result (Child × List J.Value)
    unfolding command startup_check startup_delay_ms json_stream runner_label
    get_json_stream e =
        map_err (λ message. codes "Failed to start binary: " ++ message)
          (spawn (command needs_sudo e))
        >>= λ child.
            startup_check needs_sudo e child.tried (startup_delay_ms needs_sudo e) >>= λ started.
            ok (
              child,
              json_stream J from_str child.uptime
                  (runner_label file_name e.runner_name e.binary_path) child.reads child.wait,
            )

    -- `BinaryRunner::run`: the events behind the analyzers.
    unfoldable pub run :
        BinaryRunner (List (Event J) → Result (List (Event J))) → Result (List (Event J))
    unfolding get_json_stream parse_stream process_through_analyzers
    run r = get_json_stream r.executor >>= λ started.
        process_through_analyzers
          (parse_stream J r.source r.timestamp_field (stamped started.0.uptime_at 0 started.1) 0).0
          r.analyzers
