-- ===== src/Lib.antt =====
-- MemGuard: a layer over the AgentSight capture pipeline that watches the writes to the memory stores
-- of agents. A probe prints one JSON object for each write; a runner starts the probe and turns its
-- output into events; the poison analyzer looks for the signatures of memory poisoning in each write
-- and marks the event; the alert sink batches the marked events and pushes them to chat services; the
-- trace command puts runners and analyzers together and drives the stream of events; the command line
-- decides what a command starts.
--
-- The files, and the code that they model:
-- - Base, with Base/Tests (Boolean tests on the native numbers), Base/Lists, Base/Int and
--   Base/Result: what all parts share.
-- - Text: texts as lists of characters (their scalar values) and byte strings as lists of numbers,
--   with the methods of `str` that the code calls, by their documented behaviour: Text (trim, split,
--   lines, contains), Text/Decimal (`to_string`, `{:02X}`), Text/Utf8 (`as_bytes`,
--   `from_utf8_lossy`). Text/Search, Text/Split, Text/Trim, Text/Utf8/Chars, Text/Utf8/Embeds and
--   Text/Utf8/Parts hold lemmas. `to_lowercase` needs Unicode's tables: it is a parameter,
--   Text/Lowercase, with what it does to ASCII letters.
-- - Json and Event: `serde_json::Value` as a parameter with its documented laws (Json/Tree shows that
--   they can be met), and the record `Event`.
-- - Probe, Probe/Options, Probe/Loader, Probe/Line and Probe/Main: overlay/bpf/memwrite.bpf.c and
--   memwrite.h, and the options, the prefixes, the printed line, the status and the texts of
--   overlay/bpf/memwrite.c. `vfs_write` and `vfs_writev` take what the kernel's helpers read,
--   `handle_event` gives the object of the line. Probe/Watch, Probe/Window, Probe/Read, Probe/Seen,
--   Probe/Segment, Probe/Compensated and Probe/Agrees follow a write from the kernel to the analyzer.
-- - Poison and Poison/Process: overlay/ext/analysis/src/analyzers/poison.rs. `scan_windows`,
--   `scan_file_range`, `severity`, `with_rules` and `new` have their names; `process` takes each
--   event with the file system that it meets, and Poison/Process splits its closure into
--   `is_mem_write`, `matched_of`, `compensate` and `mark`. Poison/Passes, Poison/Reports,
--   Poison/Sound, Poison/Range, Poison/Rules, Poison/Detect, Poison/Severity and Poison/Bag (the
--   rules up to order, a quotient) state what it does; Poison/Scan and Poison/Fields hold lemmas.
-- - Alert, Alert/Message, Alert/Url, Alert/Send, Alert/Sink and Alert/Flusher:
--   overlay/ext/analysis/src/analyzers/alert_sink.rs. `flush_alerts` is the list of what is logged or
--   sent, and Alert/Send/Delivered tells which requests get an answer. The channel and the background
--   task are the state `Flusher`; `act` is one turn (a send, the end of the senders, a tick, a
--   receive), so a list of actions is one interleaving. Alert/Flusher/Mailbox is what the task
--   promises, without channel, window or clock, and the refinement. Alert/Lifetime is the life of an
--   `AlertSink`, of the `StreamSink`s made of it and of the task: who holds a sender, when the
--   channel closes, and what the end of the runtime does; `move` is one thing that happens to them.
-- - Pipeline: the analyzer with the sink behind it, as the memwrite runner has them; Pipeline/Pushed
--   goes on to the background task, and Probe/Pushed begins with the write in the kernel.
-- - Runner, Runner/Guard, Runner/Stream, Runner/Binary, Runner/Log, Runner/System and Runner/Run:
--   overlay/agentsight-capture/src/runners/common.rs. `json_stream` takes what the reads of the
--   output and the wait for the process return. `live_guard` is the life of a guard, its drop
--   included. Runner/Run puts the parts together as `get_json_stream` and `run`; Runner/Log has the
--   warnings, Runner/System what is asked of the system.
-- - Trace, Trace/Agent, Trace/Drive, Trace/Server and Trace/Session:
--   overlay/collector/src/cmd_trace.rs. An agent is the list of its runners with their analyzers; the
--   loops take their turns as a list. Trace/Session has `run_trace` and its two kin, from a
--   configuration to their result. Trace/Chain sends a stream of events through a runner's analyzers,
--   as `process_through_analyzers` does; Trace/Chain/Alarm and Trace/Chain/Compensated put all parts
--   together, from the configuration and the write in the kernel to the batch.
-- - Cli, Cli/Diagnostics, Cli/Logging, Cli/Report, Cli/Record, Cli/Commands and Cli/Dispatch:
--   overlay/collector/src/main.rs. `run_record` and `run_report` give the call that the command
--   makes, with its arguments; Cli/Dispatch makes the calls, as `run`, and gives the status that
--   `main` exits with. Cli/Shutdown is the task that waits for a signal, `notify_shutdown` and the
--   loop's `select!`, moment by moment.
-- The modules named Tests run the definitions on concrete values.
--
-- Integers: 64-bit and 32-bit conversions are written out (`saturating_add`, `as_i64`, `as_u32`, the
-- error counter's `% 2 ^ 64`). Where a file's length is compared with a saturating sum, the length is
-- assumed to fit 64 bits. Every loop of the code runs over a finite input here, so there is no fuel:
-- a loop that still waits where its input runs out says so in its result.
--
-- Not modelled: libbpf's loading and polling of the probe, the other crates and modules of AgentSight
-- (with the analyzers but the two above, what runs an agent's runners together, and what a command
-- calls in other modules), log lines but the dry run's, a probe's start and its warnings, the notices
-- on the terminal, the HTTP answers, the web server behind its start, and the parsing of the command
-- line by clap. What the code uses of others' code is a parameter. Paths, files, clocks, databases,
-- memory and statuses come in as parameters.
pub mod Base
pub mod Text
pub mod Json
pub mod Event
pub mod Poison
pub mod Alert
pub mod Runner
pub mod Trace
pub mod Cli
pub mod Pipeline
pub mod Probe
