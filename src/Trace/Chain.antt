-- ===== src/Trace/Chain.antt =====
-- overlay/agentsight-capture/src/runners/common.rs: `process_through_analyzers` on the analyzers that
-- cmd_trace.rs gives a runner, with what the alert sink among them sends. The analyzers of another
-- crate are a parameter.
pub mod Found
pub mod Passed
pub mod Printed
pub mod Alarm
pub mod Compensated
mod Tests
use memguard_agent.Base.Result.{Result, ok, err, ◌>>=◌}
use memguard_agent.Runner.{parse_stream}
use memguard_agent.Runner.Run.{Child, stamped, get_json_stream}
use memguard_agent.Text.{Text}
use memguard_agent.Base.{ℕ, ◌+◌, Bool, Option, List, [], ◌∷◌, map}
use memguard_agent.Alert.Sink
use memguard_agent.Alert.Sink.{Channel}
use memguard_agent.Event.{Event, Files}
use memguard_agent.Json.{Json}
use memguard_agent.Poison.Process
use memguard_agent.Runner.Binary.{BinaryRunner, process_through_analyzers}
use memguard_agent.Text.Lowercase.{Lowercase}
use memguard_agent.Trace.Agent.{Analyzer, poison, alert_sink}

module _ (J : Json) where
  -- The events of a stream, and the channel of the alert sink that it goes through.
  pub record Flow : Type 0 where
    pub events : List (Event J)
    pub channel : Channel

  -- Each event with the files that are there as its turn comes, from the given turn on.
  abbrev pub met : (ℕ → Files) → ℕ → List (Event J) → List (Files × Event J)
  met files_at n [] = []
  met files_at n (ev ∷ evs) = (files_at n, ev) ∷ met files_at (n + 1) evs

  module _ (U : Lowercase) (files_at : ℕ → Files)
      (elsewhere : Analyzer → List (Event J) → Result (List (Event J))) where
    abbrev pub with_events : Channel → Result (List (Event J)) → Result Flow
    with_events channel (ok events) = ok (record { events = events; channel = channel })
    with_events channel (err e) = err e

    -- `analyzer.process(stream)`
    unfoldable pub analyze : Analyzer → Flow → Result Flow
    unfolding Process.process Sink.process
    analyze (poison p) flow =
        ok (record flow { events = Process.process J U p (met files_at 0 flow.events) })
    analyze (alert_sink c) flow =
        let (events, channel) = Sink.process J c flow.events flow.channel in
        ok (record { events = events; channel = channel })
    analyze a flow = with_events flow.channel (elsewhere a flow.events)

    unfoldable pub through : BinaryRunner Analyzer → Flow → Result Flow
    unfolding analyze process_through_analyzers
    through runner flow = process_through_analyzers flow (map analyze runner.analyzers)

    -- `BinaryRunner::run` with these analyzers: the events of the probe's output go through them.
    module _ (from_str : Text → Option J.Value) (file_name : Text → Option Text) (needs_sudo : Bool)
        (spawn : List Text → Result Child) where
      unfoldable pub run_through : BinaryRunner Analyzer → Channel → Result (Flow)
      unfolding through get_json_stream parse_stream
      run_through r channel =
          get_json_stream J from_str file_name needs_sudo spawn r.executor >>= λ started.
          through r (record {
            events =
                (parse_stream J r.source r.timestamp_field
                  (stamped J started.0.uptime_at 0 started.1) 0).0;
            channel = channel;
          })
