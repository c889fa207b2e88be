-- ===== src/Cli.antt =====
-- overlay/collector/src/main.rs: the commands, the ring of diagnostics, and what each command runs.
pub mod Diagnostics
pub mod Logging
pub mod Report
pub mod Record
pub mod Commands
pub mod Dispatch
pub mod Shutdown
mod Tests
use memguard_agent.Base.{ℕ, Bool, not, ◌&&◌, Option, List}
use memguard_agent.Text.{Text}

-- Whether both ends of the process are a terminal.
abbrev pub interactive_terminal_available : Bool → Bool → Bool
interactive_terminal_available stdin stdout = stdin && stdout

unfoldable pub top_uses_tui : Bool → Bool → Bool
top_uses_tui plain interactive = not plain && interactive

-- `Commands::Record`.
pub record RecordArgs : Type 0 where
  pub comm : Option Text
  pub pid : Option ℕ
  pub binary_path : Option Text
  pub memwrite : Bool
  pub memwrite_path : Option Text
  pub memwrite_prefix : Text
  pub memwrite_rules : Option Text
  pub alert_wecom : Option Text
  pub alert_serverchan : Option Text
  pub alert_base : Option Text
  pub alert_dry_run : Bool
  pub alert_interval : ℕ
  pub db : Option Text
  pub no_server : Bool
  pub server_port : ℕ
  pub command : List Text
