-- ===== src/Cli/Record.antt =====
-- overlay/collector/src/main.rs: what `record` starts. The database a session gets is chosen by
-- another crate: `configured` is its answer for `--db`, `session` its default, if there is one.
pub mod Target
use memguard_agent.Base.{
  ℕ, Bool, true, not, ◌&&◌, ◌||◌, Option, some, List, if◌then◌else◌, is_some, is_none, or_option,
  is_empty,
}
use memguard_agent.Base.Result.{Result, ok, err}
use memguard_agent.Cli.{RecordArgs}
use memguard_agent.Text.{Text, codes}
use memguard_agent.Trace.{TraceConfig, for_record}

-- What a record hands on: the arguments of `run_exec`, or the configuration of `run_trace` with the
-- database that is summarised when the trace is over.
pub data Started (Seed : Type 0) : Type 0 where
  exec_command : List Text → Option Text → Option Text → Bool → Text → ℕ → Bool → Started Seed
  trace_with : TraceConfig Seed → Option Text → Started Seed

unfoldable pub record_config : {Seed : Type 0} → RecordArgs → Text → Option Text → TraceConfig Seed
unfolding for_record
record_config {Seed} args listen db = record (for_record Seed) {
  pid = args.pid;
  comm = args.comm;
  stdio = is_some args.pid;
  binary_path = args.binary_path;
  memwrite = args.memwrite;
  memwrite_binary_path = args.memwrite_path;
  memwrite_prefix = some args.memwrite_prefix;
  memwrite_rules = args.memwrite_rules;
  alert_wecom = args.alert_wecom;
  alert_serverchan = args.alert_serverchan;
  alert_base = args.alert_base;
  alert_dry_run = args.alert_dry_run;
  alert_interval_secs = args.alert_interval;
  db_path = db;
  server = not args.no_server;
  server_listen = some listen;
  server_port = args.server_port;
}

unfoldable pub run_record :
    {Seed : Type 0}
    → (Option Text → Option Text)
    → Option Text
    → Text
    → RecordArgs
    → Result (Started Seed)
unfolding record_config
run_record configured session listen args =
    if not (is_empty args.command)
    then (if is_some args.comm || is_some args.pid
        then err (codes "record accepts either -- <command> or -c/--comm/-p/--pid, not both")
        else ok (
            exec_command args.command args.binary_path (configured args.db) (not args.no_server)
              listen args.server_port true))
    else (if is_none args.comm && is_none args.pid
        then err (
            codes
              "record requires either a command (`agentsight record -- claude`) or an attach target (`-c <comm>` / `-p <pid>`)")
        else (let db_path = or_option (configured args.db) session in
            ok (trace_with (record_config args listen db_path) db_path)))
