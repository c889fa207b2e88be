-- ===== src/Alert/Lifetime.antt =====
-- overlay/ext/analysis/src/analyzers/alert_sink.rs: the life of an `AlertSink`, its `StreamSink`s and the
-- task that it spawns. Each of them holds a sender; with the last one the channel closes. What the
-- program and the runtime do with them is a list of moves; one on a value that is gone changes nothing.
pub mod Linked
pub mod Kept
pub mod Lost
pub mod Finished
mod Tests
use memguard_agent.Base.{
  ℕ, ◌+◌, ◌-◌, Bool, true, false, not, List, [], ◌∷◌, ltb, ◌==◌, if◌then◌else◌,
}
use memguard_agent.Alert.Flusher.{Flusher, start, send, drop_senders, tick, recv, act}
use memguard_agent.Alert.{Alert, AlertConfig, enabled}

pub record Sinks : Type 0 where
  -- The `AlertSink` is alive, and how many `StreamSink`s are.
  pub sink : Bool
  pub stream_sinks : ℕ
  pub task : Flusher

-- `AlertSink::new`, which spawns the task.
unfoldable pub new : Sinks
new = record { sink = true; stream_sinks = 0; task = start }

pub data Move : Type 0 where
  -- `process` on a stream, whose closure gets a sink of its own; and `sink.clone()` for one event.
  clone_for_stream : Move
  clone : Move
  -- `push` of the `AlertSink` and of a `StreamSink`.
  push : Alert → Move
  stream_push : Alert → Move
  drop_sink : Move
  drop_stream_sink : Move
  -- The task's turns.
  tick_turn : Move
  recv_turn : Move
  -- The runtime is dropped, and its tasks with it: nobody awaits `_handle`.
  end_runtime : Move

abbrev pub one_if : Bool → ℕ
one_if true = 1
one_if false = 0

abbrev pub senders : Sinks → ℕ
senders s = one_if s.sink + s.stream_sinks

module _ (config : AlertConfig) where
  -- The drop of a sender.
  unfoldable pub close_if_last : Sinks → Sinks
  unfolding act
  close_if_last s = if senders s == 0 then record s { task = act config s.task drop_senders } else s

  -- `if !self.config.enabled() { return; } let _ = self.sender.send(alert);`
  unfoldable pub push_alert : Sinks → Alert → Sinks
  unfolding act
  push_alert s alert =
      if not (enabled config) then s else record s { task = act config s.task (send alert) }

  unfoldable pub move : Sinks → Move → Sinks
  unfolding close_if_last push_alert act
  move s clone_for_stream = if s.sink then record s { stream_sinks = s.stream_sinks + 1 } else s
  move s clone = if ltb 0 s.stream_sinks then record s { stream_sinks = s.stream_sinks + 1 } else s
  move s (push alert) = if s.sink then push_alert s alert else s
  move s (stream_push alert) = if ltb 0 s.stream_sinks then push_alert s alert else s
  move s drop_sink = if s.sink then close_if_last (record s { sink = false }) else s
  move s drop_stream_sink =
      if ltb 0 s.stream_sinks
      then close_if_last (record s { stream_sinks = s.stream_sinks - 1 })
      else s
  move s tick_turn = record s { task = act config s.task tick }
  move s recv_turn = record s { task = act config s.task recv }
  move s end_runtime = record s { task = record s.task { running = false } }

  unfoldable pub live : Sinks → List Move → Sinks
  unfolding move
  live s [] = s
  live s (m ∷ ms) = live (move s m) ms
