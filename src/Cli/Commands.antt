-- ===== src/Cli/Commands.antt =====
-- overlay/collector/src/main.rs: the commands with their arguments, and what other modules of the
-- collector, or other crates, do for them, as fields of `Others`.
use memguard_agent.Base.{ℕ, Bool, Option, List}
use memguard_agent.Base.Result.{Result}
use memguard_agent.Cli.Record.{Started}
use memguard_agent.Cli.Report.{ReportCommands, Query}
use memguard_agent.Cli.{RecordArgs}
use memguard_agent.Text.{Text}
use memguard_agent.Trace.Agent.{Outside}
use memguard_agent.Trace.Session.{Resolvers}

pub record TopOptions : Type 0 where
  pub pid : Option ℕ
  pub comm : Option Text
  pub sort : Text
  pub view : Text

pub record TopArgs : Type 0 where
  pub options : TopOptions
  pub interval : ℕ
  pub limit : ℕ
  pub count : Option ℕ
  pub once : Bool
  pub plain : Bool

pub record BindArgs : Type 0 where
  pub qr : Bool
  pub no_open : Bool
  pub server_port : ℕ
  pub db : Option Text
  pub app_url : Text
  pub endpoint : Option Text
  pub docker_containers : List Text

pub data MonitorCommands : Type 0 where
  install_service : MonitorCommands

pub record Others : Type 1 where
  -- `agentvis::CompactRate`, `cmd_debug::DebugCli`, and the capture that feeds a `top`.
  pub CompactRate : Type 0
  pub DebugCli : Type 0
  pub Capture : Type 0
  pub Seed : Type 0
  pub interactive_terminal_available : Bool
  pub run_vis : Text → List Text → Bool → CompactRate → Result (Unit {0})
  -- The arguments, the address and the database that `configured_db_path` gives.
  pub run_bind : BindArgs → Text → Option Text → Result (Unit {0})
  pub run_stdio_bridge : Result (Unit {0})
  pub run_query : Query → Result (Unit {0})
  pub run_monitor : Result (Unit {0})
  pub install_monitor_service : Result (Unit {0})
  pub start_live_ebpf_capture : TopOptions → Capture
  pub run_live_top_tui : Capture → ℕ → ℕ → Option ℕ → TopOptions → Result (Unit {0})
  pub run_live_top_query : Capture → ℕ → ℕ → Option ℕ → TopOptions → Result (Unit {0})
  pub binary_extractor : Result Outside
  pub run_exec : Started Seed → Result (Unit {0})
  pub run_debug : Outside → DebugCli → Text → Result (Unit {0})
  pub configured_db_path : Option Text → Option Text
  pub default_session_db_path : Result Text
  pub latest_session_db : Option Text
  pub resolvers : Resolvers Seed

pub data Commands (others : Others) : Type 0 where
  vis : Text → List Text → Bool → others.CompactRate → Commands others
  bind : BindArgs → Commands others
  bridge : Commands others
  top : TopArgs → Commands others
  monitor : Option MonitorCommands → Commands others
  record_command : RecordArgs → Commands others
  report : Option Text → Bool → Option ReportCommands → Commands others
  debug : others.DebugCli → Commands others

pub record Cli (others : Others) : Type 0 where
  pub listen : Text
  pub command : Commands others
