-- ===== src/Cli/Dispatch/Tests.antt =====
-- Whole runs with concrete parts, and their theorems at them.
use memguard_agent.Base.{
  ℕ, ◌≡◌, refl, inl, inr, true, false, Option, none, some, List, [], ◌∷◌, ◌++◌, arith,
}
use memguard_agent.Base.Result.{Result, ok, err}
use memguard_agent.Cli.Dispatch.Failing.{failing_probe_exit_status}
use memguard_agent.Cli.Dispatch.Summary.{Summarised, session_summary-Summarised}
use memguard_agent.Cli.Commands.{Others, Cli, record_command}
use memguard_agent.Cli.Dispatch.{run, main, signal_handler}
use memguard_agent.Cli.{RecordArgs}
use memguard_agent.Json.Tree.{object, end, tree_json}
use memguard_agent.Runner.Stream.{line, end_of_output}
use memguard_agent.Text.Utf8.{as_bytes}
use memguard_agent.Text.{contains, Text, codes}
use memguard_agent.Trace.Agent.{TraceAgent}
use memguard_agent.Trace.Drive.{Turn, nexts, no_next}
use memguard_agent.Trace.Failing.{events_of_failed}
use memguard_agent.Trace.Server.{Web}

abbrev web : Web
web = record {
  Addr = Text;
  Server = Option Text;
  parse = λ s. ok s;
  new_with_db_path = λ db. ok db;
  with_live_host = λ s. s;
  is_finished = λ s a. false;
}

-- A machine on which everything works, and no container and no agent runs.
abbrev others : Others
others = record {
  CompactRate = ℕ;
  DebugCli = ℕ;
  Capture = ℕ;
  Seed = ℕ;
  interactive_terminal_available = true;
  run_vis = λ path outputs global rate. ok tt;
  run_bind = λ args listen db. ok tt;
  run_stdio_bridge = ok tt;
  run_query = λ query. ok tt;
  run_monitor = ok tt;
  install_monitor_service = ok tt;
  start_live_ebpf_capture = λ options. 0;
  run_live_top_tui = λ capture interval limit count options. ok tt;
  run_live_top_query = λ capture interval limit count options. ok tt;
  binary_extractor = ok (record {
    sslsniff_path = codes "/opt/sslsniff";
    stdiocap_path = err (codes "none");
    process_path = codes "/opt/process";
    read_to_string = λ path. ok [];
    open_sqlite = λ path. ok tt;
  });
  run_exec = λ started. ok tt;
  run_debug = λ outside cli listen. ok tt;
  configured_db_path = λ db. db;
  default_session_db_path = ok (codes "session.db");
  latest_session_db = none;
  resolvers = record {
    container_binary = λ path. ok none;
    binary_path_for_ssl = λ comm. ok none;
    seeds = λ cfg. ok [];
  };
}

abbrev attach : RecordArgs
attach = record {
  comm = some (codes "claude");
  pid = none;
  binary_path = none;
  memwrite = true;
  memwrite_path = some (codes "/opt/memwrite");
  memwrite_prefix = codes "ehragent_memory";
  memwrite_rules = none;
  alert_wecom = none;
  alert_serverchan = none;
  alert_base = none;
  alert_dry_run = true;
  alert_interval = 10;
  db = none;
  no_server = false;
  server_port = 7395;
  command = [];
}

abbrev cli : Cli others
cli = record { listen = codes "127.0.0.1"; command = record_command attach }

abbrev ends_well : TraceAgent ℕ → Result (List (Turn tree_json))
ends_well agent = ok (no_next ∷ [])

abbrev fails : TraceAgent ℕ → Result (List (Turn tree_json))
fails agent = ok (
    nexts tree_json (
      events_of_failed tree_json (λ s. some (object end)) 5 6 (codes "MemWrite") (codes "memwrite")
        (codes "timestamp") (codes "exit status: 1") (line (as_bytes (codes "{}")) ∷ [])
        end_of_output [])
    ++ (no_next ∷ []))

failing_probe_exit_status_example :
    (main tree_json web others fails false cli ≡ some 1)
    × ((run tree_json web others fails false cli).acts ≡ signal_handler false ∷ [])
failing_probe_exit_status_example =
    failing_probe_exit_status tree_json web others fails (λ s. some (object end)) 5 6
      (codes "MemWrite") (codes "memwrite") (codes "timestamp") (codes "exit status: 1")
      (line (as_bytes (codes "{}")) ∷ []) [] end_of_output (no_next ∷ []) attach (codes "127.0.0.1")
      false (omega arith) (inl refl) (tt, tt) tt (λ agent. refl) refl

session_summary-Summarised_example :
    Summarised tree_json web others ends_well false cli (codes "session.db")
unfolding run contains
session_summary-Summarised_example =
    session_summary-Summarised tree_json web others ends_well false cli (codes "session.db")
      (inr (inl refl))
