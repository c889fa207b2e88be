-- ===== src/Trace/Chain/Compensated.antt =====
-- From a configuration and a write whose signature no window shows to the alert that is pushed.
use memguard_agent.Base.Result.{Result, ok}
use memguard_agent.Base.{
  ℕ, ◌+◌, ◌^◌, ◌≤◌, ◌<◌, ◌≡◌, sym, subst, ◌≢◌, ◌⊎◌, Bool, true, false, Option, some, List, [], ◌∷◌,
  ◌++◌, map, arith, if◌then◌else◌, length, is_empty, All, Elem,
}
use memguard_agent.Alert
use memguard_agent.Alert.Lifetime
use memguard_agent.Alert.Lifetime.Kept.{pushed}
use memguard_agent.Alert.Lifetime.Linked.{KeepsRuntime}
use memguard_agent.Alert.Lifetime.{Move, live}
use memguard_agent.Alert.{Alert}
use memguard_agent.Event.{Event, Files}
use memguard_agent.Json.{Json}
use memguard_agent.Pipeline.Pushed.{empty_channel}
use memguard_agent.Pipeline.{alert_with}
use memguard_agent.Poison.{poison_signatures}
use memguard_agent.Probe.Line.{IsPrintable, Printed, resolve_path, handle_event}
use memguard_agent.Probe.Read.{runner_event, event_of, runner_event_lem, vfs_write-time_and_pid}
use memguard_agent.Runner.Run.{Child}
use memguard_agent.Runner.Stream.Lines.{GoesOn}
use memguard_agent.Runner.Stream.{Read, line, parse_line}
use memguard_agent.Trace.Chain.Printed.{run_through-Elem}
use memguard_agent.Trace.Chain.Found.{memwrite_runner-found_field}
use memguard_agent.Poison.Detect.{windows_of}
use memguard_agent.Poison.{max_scan}
use memguard_agent.Probe.Compensated.{vfs_write-compensated}
use memguard_agent.Base.Int.{pos}
use memguard_agent.Probe.Loader.{watch_prefixes}
use memguard_agent.Text.Utf8.{IsScalar, as_bytes}
use memguard_agent.Probe.{MemwriteEvent, Kernel, vfs_write}
use memguard_agent.Runner.Binary.{BinaryRunner, command}
use memguard_agent.Text.Lowercase.{Lowercase, IsPlain, SameLetters}
use memguard_agent.Text.{Text, Bytes, codes}
use memguard_agent.Trace.Agent.{
  Analyzer, timestamp_normalizer, alert_config, TraceAgent, Outside, binary, read_rules,
  build_trace_agent_with_view,
}
use memguard_agent.Trace.Chain.Passed.{configured, retimed, Reports-alarmed}
use memguard_agent.Trace.Chain.{Flow, through, run_through}
use memguard_agent.Trace.Memwrite.{prefix_of, rules_of-read_rules}
use memguard_agent.Trace.{TraceConfig}

module _ (J : Json) (printed : Printed) (U : Lowercase) {Seed : Type 0} (outside : Outside)
    (cfg : TraceConfig Seed) (on : Alert.enabled (alert_config cfg) ≡ true) where
  -- For any stream of events that has the event of the write.
  pub compensated_write_alarms :
      (agent : TraceAgent Seed) (r : BinaryRunner Analyzer) (rules : List Text) (k : Kernel)
      (link : Option Bytes) (front before after back : Bytes) (s sig : Text) (count now errors : ℕ)
      (e : MemwriteEvent) (files_at : ℕ → Files)
      (elsewhere : Analyzer → List (Event J) → Result (List (Event J))) (time : ℕ → ℕ)
      (events : List (Event J)) (flow : Flow J) (ms : List Move)
      → build_trace_agent_with_view outside cfg ≡ ok agent
      → Elem (binary r) agent.runners
      → r.source ≡ codes "memwrite"
      → read_rules outside cfg.memwrite_rules ≡ ok rules
      → Elem sig (if is_empty rules then poison_signatures else rules)
      → All IsScalar (prefix_of cfg)
      → length (as_bytes (prefix_of cfg)) ≤ 63
      → vfs_write (watch_prefixes (as_bytes (prefix_of cfg))) k true count ≡ some e
      → count ≡ length (before ++ (as_bytes s ++ after))
      → k.position ≡ some (pos (length front))
      → k.ktime_ns < 2 ^ 64
      → k.pid_tgid < 2 ^ 64
      → All IsPrintable (resolve_path link e)
      → ((i : ℕ)
          → files_at i (resolve_path link e)
            ≡ some ((front ++ before) ++ (as_bytes s ++ (after ++ back))))
      → length ((front ++ before) ++ (as_bytes s ++ (after ++ back))) < 2 ^ 64
      → length before + length (as_bytes s) ≤ max_scan
      → s ≢ []
      → All IsPlain s
      → All IsPlain sig
      → SameLetters s sig
      → Elem (runner_event J printed link e now errors) events
      → elsewhere timestamp_normalizer events ≡ ok (map (retimed J time) events)
      → through J U files_at elsewhere r (record { events = events; channel = empty_channel })
        ≡ ok flow
      → pushed (alert_config cfg) Lifetime.new ms ≡ flow.channel.buffered
      → KeepsRuntime ms
      → (live (alert_config cfg) Lifetime.new ms).task.running ≡ false
      → (matched : List Text) × ((x : Text) × Elem x matched
          × ((x ≡ sig)
              ⊎ Elem x (
                  windows_of J U
                    (configured cfg rules)
                    (runner_event J printed link e now errors))))
        × (batch : List Alert) × Elem batch (live (alert_config cfg) Lifetime.new ms).task.flushed
        × Elem
            (alert_with J (retimed J time (runner_event J printed link e now errors)) matched)
            batch
  compensated_write_alarms agent r rules k link front before after back s sig count now errors e
        files_at elsewhere time events flow ms built there from was_read rule v short captured size
        at clock task hp file fits covered ne hs hsig same m normalized went all k' stopped =
      Reports-alarmed J U outside cfg on agent r rules (runner_event J printed link e now errors)
        (λ matched.
          (x : Text) × Elem x matched
          × ((x ≡ sig)
              ⊎ Elem x (
                  windows_of J U (configured cfg rules)
                    (runner_event J printed link e now errors))))
        files_at elsewhere time events flow ms built there from was_read
        (λ i.
          let (matched, x, reports, listed, named) =
            vfs_write-compensated J printed U (configured cfg rules) (files_at i) k true link front
              before after back s sig count now errors e v short captured size at clock task hp
              (file i) fits covered ne hs hsig same
              (subst (Elem sig) (sym (rules_of-read_rules cfg outside rules was_read)) rule) in
          (matched, x, reports, listed, (x, listed, named)))
        m normalized went all k' stopped

  module _ (from_str : Text → Option J.Value) (file_name : Text → Option Text) (needs_sudo : Bool)
      (spawn : List Text → Result Child) where
    -- Where an agent is built with alerts on, and one of its runners reads the memory probe: a write to
    -- a file that the probe watches, with the prefixes of the configuration, which are 63 bytes long at
    -- most, is pushed if it holds one of the rules that were read from the rules file, or of the
    -- built-in signatures where it has none, of ASCII characters and CJK ideographs, not empty, in any
    -- case of its ASCII letters and with any bytes around it, within its first 4 MiB, whether or not its
    -- buffer could be read, if the ring buffer has room, a line of the probe's output, before the
    -- output's end, reads as the object that is printed for the write, the printed path is printable
    -- ASCII, and the file at it is below 2 ^ 64 bytes and has the written bytes at the offset that the
    -- probe saw whenever the analyzer reads it. The runner runs, the normalizer changes the times alone,
    -- and what is done with the sink, those made of it and its task is anything that pushes what the
    -- runner's analyzers put into the channel, as long as the runtime lives and the task has returned.
    -- Then a batch has the alert of the write's event, with its normalized time and with signatures that
    -- this one is among, or one that a window holds.
    pub printed_compensated_alarms :
        (agent : TraceAgent Seed) (r : BinaryRunner Analyzer) (rules : List Text) (k : Kernel)
        (link : Option Bytes) (front before after back : Bytes) (s sig : Text) (count : ℕ)
        (e : MemwriteEvent) (child : Child) (earlier later : List Read) (bytes : Bytes)
        (files_at : ℕ → Files) (elsewhere : Analyzer → List (Event J) → Result (List (Event J)))
        (time : ℕ → ℕ) (flow : Flow J) (ms : List Move)
        → build_trace_agent_with_view outside cfg ≡ ok agent
        → Elem (binary r) agent.runners
        → r.source ≡ codes "memwrite"
        → read_rules outside cfg.memwrite_rules ≡ ok rules
        → Elem sig (if is_empty rules then poison_signatures else rules)
        → All IsScalar (prefix_of cfg)
        → length (as_bytes (prefix_of cfg)) ≤ 63
        → vfs_write (watch_prefixes (as_bytes (prefix_of cfg))) k true count ≡ some e
        → count ≡ length (before ++ (as_bytes s ++ after))
        → k.position ≡ some (pos (length front))
        → k.ktime_ns < 2 ^ 64
        → k.pid_tgid < 2 ^ 64
        → All IsPrintable (resolve_path link e)
        → ((i : ℕ)
            → files_at i (resolve_path link e)
              ≡ some ((front ++ before) ++ (as_bytes s ++ (after ++ back))))
        → length ((front ++ before) ++ (as_bytes s ++ (after ++ back))) < 2 ^ 64
        → length before + length (as_bytes s) ≤ max_scan
        → s ≢ []
        → All IsPlain s
        → All IsPlain sig
        → SameLetters s sig
        → spawn (command needs_sudo r.executor) ≡ ok child
        → child.reads ≡ earlier ++ (line bytes ∷ later)
        → All GoesOn earlier
        → parse_line J from_str bytes ≡ some (handle_event J printed link e)
        → ((evs : List (Event J))
            → elsewhere timestamp_normalizer evs ≡ ok (map (retimed J time) evs))
        → run_through J U files_at elsewhere from_str file_name needs_sudo spawn r empty_channel
          ≡ ok flow
        → pushed (alert_config cfg) Lifetime.new ms ≡ flow.channel.buffered
        → KeepsRuntime ms
        → (live (alert_config cfg) Lifetime.new ms).task.running ≡ false
        → (matched : List Text) × ((x : Text) × Elem x matched
            × ((x ≡ sig)
                ⊎ Elem x (windows_of J U (configured cfg rules) (event_of J printed link e))))
          × (batch : List Alert) × Elem batch (live (alert_config cfg) Lifetime.new ms).task.flushed
          × Elem (alert_with J (retimed J time (event_of J printed link e)) matched) batch
    printed_compensated_alarms agent r rules k link front before after back s sig count e child
          earlier later bytes files_at elsewhere time flow ms built there from was_read rule v short
          captured size at clock task hp file fits covered ne hs hsig same spawned reads goes
          reads_as normalized went all k' stopped =
        let (timestamp_is, pid_is) =
          vfs_write-time_and_pid (watch_prefixes (as_bytes (prefix_of cfg))) k true count e
            captured in
        let field = memwrite_runner-found_field outside cfg agent r built there from in
        let (events, now, errors, m, went_through) =
          run_through-Elem J from_str printed U files_at elsewhere file_name needs_sudo spawn r
            child earlier later bytes e link empty_channel flow from field spawned reads goes
            reads_as went in
        subst
          (λ (ev : Event J).
            (matched : List Text) × ((x : Text) × Elem x matched
              × ((x ≡ sig) ⊎ Elem x (windows_of J U (configured cfg rules) ev)))
            × (batch : List Alert) × Elem batch
                (live (alert_config cfg) Lifetime.new ms).task.flushed
            × Elem (alert_with J (retimed J time ev) matched) batch)
          (runner_event_lem J printed link e (omega arith) (omega arith) now errors)
          (compensated_write_alarms agent r rules k link front before after back s sig count now
            errors e files_at elsewhere time events flow ms built there from was_read rule v short
            captured size at clock task hp file fits covered ne hs hsig same m (normalized events)
            went_through all k' stopped)
