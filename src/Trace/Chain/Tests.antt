-- ===== src/Trace/Chain/Tests.antt =====
-- The memwrite runner's analyzers on a concrete write, from the kernel to the batch.
use memguard_agent.Base.Result.{Result, ok, err}
use memguard_agent.Base.{
  ℕ, ◌+◌, ◌/◌, ◌≡◌, refl, ◌⊎◌, inl, true, false, Option, none, some, List, [], ◌∷◌, ◌++◌, map,
  arith, take, drop, Elem,
}
use memguard_agent.Text.Utf8.{as_bytes, encode_char, from_utf8_lossy}
use memguard_agent.Base.Int.{negsuc, pos}
use memguard_agent.Trace.Chain.Compensated.{printed_compensated_alarms}
use memguard_agent.Poison.Detect.{windows_of}
use memguard_agent.Probe.Loader.{watch_prefixes}
use memguard_agent.Alert.Lifetime
use memguard_agent.Alert.Lifetime.Kept.{pushed}
use memguard_agent.Alert.Lifetime.{
  Move, clone_for_stream, stream_push, drop_sink, drop_stream_sink, recv_turn, live,
}
use memguard_agent.Alert.Sink
use memguard_agent.Alert.{Alert, enabled}
use memguard_agent.Event.{Event, Files}
use memguard_agent.Json.Tree.{Tree, tree_json}
use memguard_agent.Pipeline.Pushed.{empty_channel}
use memguard_agent.Pipeline.{alert_with}
use memguard_agent.Poison.Process
use memguard_agent.Poison.{scan_windows, scan_file_range}
use memguard_agent.Probe.Line.{handle_event, Printed, resolve_path}
use memguard_agent.Probe.Read.{event_of}
use memguard_agent.Probe.{Kernel, MemwriteEvent, match_prefix, watched_name, write_event, vfs_write}
use memguard_agent.Runner.Binary.{BinaryRunner}
use memguard_agent.Runner.{parse_json_event}
use memguard_agent.Text.Lowercase.Ascii.{ascii_lowercase}
use memguard_agent.Text.{contains, split, trim, lines, Text, codes}
use memguard_agent.Trace.Agent.{
  Analyzer, timestamp_normalizer, alert_config, memwrite_runner, TraceAgent, Outside, binary,
  read_rules, build_trace_agent_with_view,
}
use memguard_agent.Trace.Chain.Alarm.{printed_write_alarms}
use memguard_agent.Trace.Chain.Passed.{retimed, configured}
use memguard_agent.Trace.Chain.{Flow, run_through}
use memguard_agent.Runner.Run.{Child}
use memguard_agent.Runner.Stream.{line, interrupted, exited, parse_line}
use memguard_agent.Runner.Binary.{still_running}
use memguard_agent.Alert.Lifetime.Linked.{KeepsRuntime}
use memguard_agent.Trace.{TraceConfig, for_record}

abbrev cfg : TraceConfig ℕ
cfg = record (for_record ℕ) {
  ssl = false;
  process = false;
  stdio = false;
  system = false;
  comm = some (codes "claude");
  memwrite = true;
  memwrite_binary_path = some (codes "/opt/memwrite");
  memwrite_rules = some (codes "rules.txt");
  alert_dry_run = true;
}

abbrev outside : Outside
outside = record {
  sslsniff_path = codes "/opt/sslsniff";
  stdiocap_path = err (codes "none");
  process_path = codes "/opt/process";
  read_to_string = λ path. ok (codes "# note\n Two Words \n");
  open_sqlite = λ path. ok tt;
}

abbrev rules : List Text
rules = codes "Two Words" ∷ []

abbrev runner : BinaryRunner Analyzer
runner = memwrite_runner cfg (codes "/opt/memwrite") rules

abbrev agent : TraceAgent ℕ
agent = record { runners = binary runner ∷ []; view_sinks = [] }

abbrev reader : Kernel
reader = record {
  room = true;
  pid_tgid = 30064771081;
  ktime_ns = 5;
  comm = codes "python3";
  name = some (codes "ehragent_memory.db");
  parent = none;
  position = some (negsuc 3);
  read_user = λ off size. some (take size (drop off (codes "in two words.")));
}

abbrev printed : Printed
printed = record { read_back = λ s. s; printable = λ s h. refl }

abbrev captured : MemwriteEvent
captured = write_event reader 13 (codes "ehragent_memory.db")

abbrev milliseconds : ℕ → ℕ
milliseconds t = t / 1000000 + 1700

abbrev elsewhere : Analyzer → List (Event tree_json) → Result (List (Event tree_json))
elsewhere timestamp_normalizer evs = ok (map (retimed tree_json milliseconds) evs)
elsewhere _ evs = ok evs

abbrev no_files : ℕ → Files
no_files n path = none

-- A write whose buffer cannot be read any more, behind the two bytes that the file begins with.
abbrev blind : Kernel
blind = record reader { position = some (pos 2); read_user = λ off size. none }

abbrev unseen : MemwriteEvent
unseen = write_event blind 11 (codes "ehragent_memory.db")

abbrev disk : ℕ → Files
disk n path = some (codes "ab" ++ codes "ctwo wordsd")

-- A probe that has printed one line so far, and a parser that reads it as the object of a write.
abbrev child : Child
child = record {
  pid = some 9;
  tried = still_running;
  reads = interrupted ∷ line (codes "{}") ∷ [];
  wait = exited true (codes "exit status: 0");
  uptime = 4;
  uptime_at = λ n. 3;
}

abbrev reads_as : Tree → Text → Option Tree
reads_as v text = some v

abbrev no_name : Text → Option Text
no_name path = none

abbrev spawn : List Text → Result Child
spawn command_line = ok child

abbrev flow_of : Result (Flow tree_json) → Flow tree_json
flow_of (ok flow) = flow
flow_of (err e) = record { events = []; channel = empty_channel }

abbrev shown : Tree
shown = handle_event tree_json printed none captured

abbrev flow : Flow tree_json
flow = flow_of (
    run_through tree_json ascii_lowercase no_files elsewhere (reads_as shown) no_name true spawn
      runner empty_channel)

abbrev unshown : Tree
unshown = handle_event tree_json printed (some (codes "/srv")) unseen

abbrev unseen_flow : Flow tree_json
unseen_flow = flow_of (
    run_through tree_json ascii_lowercase disk elsewhere (reads_as unshown) no_name true spawn
      runner empty_channel)

abbrev event : Event tree_json
event = event_of tree_json printed none captured

abbrev unseen_event : Event tree_json
unseen_event = event_of tree_json printed (some (codes "/srv")) unseen

abbrev alarm : Event tree_json → Alert
alarm ev = alert_with tree_json (retimed tree_json milliseconds ev) rules

abbrev moves : Event tree_json → List Move
moves ev =
    clone_for_stream
    ∷ stream_push (alarm ev)
    ∷ drop_stream_sink
    ∷ drop_sink
    ∷ recv_turn
    ∷ recv_turn
    ∷ []

moves-KeepsRuntime : (ev : Event tree_json) → KeepsRuntime (moves ev)
moves-KeepsRuntime ev = (λ e. cc, (λ e. cc, (λ e. cc, (λ e. cc, (λ e. cc, (λ e. cc, tt))))))

printed_write_alarms_example :
    (matched : List Text) × Elem (codes "Two Words") matched
    × (batch : List Alert) × Elem batch
        (live (alert_config cfg) Lifetime.new (moves event)).task.flushed
    × Elem (alert_with tree_json (retimed tree_json milliseconds event) matched) batch
unfolding vfs_write match_prefix watched_name enabled live pushed Lifetime.new Sink.process
    Process.process parse_json_event handle_event scan_windows contains write_event for_record
    alert_config memwrite_runner build_trace_agent_with_view read_rules run_through trim lines
    parse_line from_utf8_lossy
printed_write_alarms_example =
    printed_write_alarms tree_json printed ascii_lowercase outside cfg refl (reads_as shown) no_name
      true spawn agent runner rules (codes "ehr" ∷ []) reader none (codes "in ") (codes "two words")
      (codes ".") (codes "Two Words") 13 captured child (interrupted ∷ []) [] (codes "{}") no_files
      elsewhere milliseconds flow (moves event) refl (inl refl) refl refl (inl refl) refl refl
      (omega arith) (omega arith) (omega arith) (λ off size h. refl) (omega arith)
      (inl (omega arith)) (omega arith) refl refl refl (tt, tt) refl (λ evs. refl) refl refl
      (moves-KeepsRuntime event) refl

printed_compensated_alarms_example :
    (matched : List Text) × ((x : Text) × Elem x matched
      × ((x ≡ codes "Two Words")
          ⊎ Elem x (windows_of tree_json ascii_lowercase (configured cfg rules) unseen_event)))
    × (batch : List Alert) × Elem batch
        (live (alert_config cfg) Lifetime.new (moves unseen_event)).task.flushed
    × Elem (alert_with tree_json (retimed tree_json milliseconds unseen_event) matched) batch
unfolding vfs_write match_prefix watched_name enabled live pushed Lifetime.new Sink.process
    Process.process parse_json_event handle_event scan_windows contains write_event for_record
    alert_config memwrite_runner build_trace_agent_with_view read_rules run_through trim lines
    watch_prefixes resolve_path scan_file_range split as_bytes encode_char from_utf8_lossy
    parse_line
printed_compensated_alarms_example =
    printed_compensated_alarms tree_json printed ascii_lowercase outside cfg refl (reads_as unshown)
      no_name true spawn agent runner rules blind (some (codes "/srv")) (codes "ab") (codes "c")
      (codes "d") [] (codes "two words") (codes "Two Words") 11 unseen child (interrupted ∷ []) []
      (codes "{}") disk elsewhere milliseconds unseen_flow (moves unseen_event) refl (inl refl) refl
      refl (inl refl) (omega arith) (omega arith) refl refl refl (omega arith) (omega arith)
      (omega arith) (λ i. refl) (omega arith) (omega arith) (λ empty. cc) (omega arith)
      (omega arith) refl refl refl (tt, tt) refl (λ evs. refl) refl refl
      (moves-KeepsRuntime unseen_event) refl
