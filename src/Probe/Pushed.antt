-- ===== src/Probe/Pushed.antt =====
-- From the write in the kernel to the alert that is pushed.
use memguard_agent.Base.{
  ℕ, ◌+◌, ◌^◌, ◌≤◌, ◌<◌, ◌≡◌, ◌⊎◌, true, false, Option, some, List, ◌++◌, length, All, Elem,
}
use memguard_agent.Alert.Flusher.Running.{sent, IsOrderly}
use memguard_agent.Alert.Flusher.{Action, start, run_flusher}
use memguard_agent.Alert.{Alert, AlertConfig, enabled}
use memguard_agent.Event.{Event, Files}
use memguard_agent.Json.{Json}
use memguard_agent.Pipeline.Pushed.{put, Reports-pushed}
use memguard_agent.Pipeline.{alert_with}
use memguard_agent.Poison.{PoisonAnalyzer}
use memguard_agent.Probe.Line.{IsPrintable, Printed}
use memguard_agent.Probe.Read.{runner_event}
use memguard_agent.Probe.Seen.{vfs_write-Reports}
use memguard_agent.Probe.Window.{Holds}
use memguard_agent.Probe.{MemwriteEvent, Kernel, payload_half, vfs_write}
use memguard_agent.Text.Lowercase.{Lowercase, IsPlain, SameLetters}
use memguard_agent.Text.{Text, Bytes}

module _ (J : Json) (printed : Printed) (U : Lowercase) (a : PoisonAnalyzer) (config : AlertConfig)
    (on : enabled config ≡ true) where
  -- A write of printable ASCII, below 4 GiB, to a file that the probe watches, whose buffer can
  -- be read and which holds a signature, in any case of its letters, within its first 128 or its last 128
  -- bytes, is pushed, if the ring buffer has room: a batch that the background task flushes has the alert
  -- of the event that the runner made of the write, with signatures that this one is among. The stream
  -- of events has that event and any others, and the task may interleave in any way, where a channel is
  -- configured, what is sent to the task is what the sink puts into the channel for the stream, nothing
  -- is sent once the senders are gone, and the task has returned.
  pub vfs_write_pushed :
      (prefixes : List Bytes) (k : Kernel) (link : Option Bytes) (before s after : Bytes)
      (sig : Text) (count now errors : ℕ) (e : MemwriteEvent) (files : Files)
      (events : List (Files × Event J)) (xs : List Action)
      → vfs_write prefixes k true count ≡ some e
      → count ≡ length (before ++ (s ++ after))
      → count < 2 ^ 32
      → k.ktime_ns < 2 ^ 64
      → k.pid_tgid < 2 ^ 64
      → Holds k (before ++ (s ++ after))
      → All IsPrintable (before ++ (s ++ after))
      → (length before + length s ≤ payload_half) ⊎ (length s + length after ≤ payload_half)
      → All IsPlain sig
      → SameLetters s sig
      → Elem sig a.rules
      → Elem (files, runner_event J printed link e now errors) events
      → sent xs ≡ put J U a config on events
      → IsOrderly xs
      → (run_flusher config start xs).running ≡ false
      → (matched : List Text) × Elem sig matched
        × (batch : List Alert) × Elem batch (run_flusher config start xs).flushed
        × Elem (alert_with J (runner_event J printed link e now errors) matched) batch
  vfs_write_pushed prefixes k link before s after sig count now errors e files events xs captured
        size b time task holds hp near hsig same rule m all orderly stopped =
      let (matched, reports, found) =
        vfs_write-Reports J printed U a files prefixes k link before s after sig count now errors e
          captured size b time task holds hp near hsig same rule in
      let (batch, flushed, in_batch) =
        Reports-pushed J U a config on events files (runner_event J printed link e now errors) sig
          matched xs m reports found all orderly stopped in
      (matched, found, batch, flushed, in_batch)
