-- ===== src/Cli/Record/Target.antt =====
-- What a record watches.
use memguard_agent.Base.Result.{Result, ok, err}
use memguard_agent.Base.{
  ◌≡◌, refl, inl, inr, true, false, ◌&&◌, ◌||◌, Option, none, some, Bool-cases, is_some, is_none,
  or_option, is_empty,
}
use memguard_agent.Cli.{RecordArgs}
use memguard_agent.Cli.Record.{Started, exec_command, trace_with, record_config, run_record}
use memguard_agent.Text.{Text}
use memguard_agent.Trace.Agent.{check_enabled}
use memguard_agent.Trace.{TraceConfig}

-- The arguments of a record with other options for the memory probe and its alerts.
unfoldable pub with_memwrite : RecordArgs → RecordArgs → RecordArgs
with_memwrite other args = record args {
  memwrite = other.memwrite;
  memwrite_path = other.memwrite_path;
  memwrite_prefix = other.memwrite_prefix;
  memwrite_rules = other.memwrite_rules;
  alert_wecom = other.alert_wecom;
  alert_serverchan = other.alert_serverchan;
  alert_base = other.alert_base;
  alert_dry_run = other.alert_dry_run;
  alert_interval = other.alert_interval;
}

-- A record that is given a command, with or without an attach target, gives the same result whatever
-- options it has for the memory probe and its alerts.
pub run_record_command-with_memwrite :
    {Seed : Type 0} (configured : Option Text → Option Text) (session : Option Text) (listen : Text)
    (other args : RecordArgs)
    → is_empty args.command ≡ false
    → run_record {Seed = Seed} configured session listen (with_memwrite other args)
      ≡ run_record configured session listen args
unfolding run_record with_memwrite
run_record_command-with_memwrite configured session listen other args h = rw h refl

record_config-enabled :
    (Seed : Type 0) (args : RecordArgs) (listen : Text) (db : Option Text)
    → check_enabled (record_config {Seed = Seed} args listen db) ≡ ok tt
unfolding record_config check_enabled
record_config-enabled Seed args listen db = refl

attached :
    {A B : Type 0} (a : Option A) (b : Option B)
    → (is_none a && is_none b) ≡ false
    → (is_some b || is_some a) ≡ true
attached none none h = cc
attached none (some b) h = refl
attached (some a) none h = refl
attached (some a) (some b) h = refl

-- What a trace that a record starts watches.
pub record Attached {Seed : Type 0} (cfg : TraceConfig Seed) (db : Option Text) : Type 0 where
  pub target : (is_some cfg.pid || is_some cfg.comm) ≡ true
  pub stdio : cfg.stdio ≡ is_some cfg.pid
  pub enabled : check_enabled cfg ≡ ok tt
  pub saved : cfg.db_path ≡ db

record_config-Attached :
    {Seed : Type 0} (args : RecordArgs) (listen : Text) (db : Option Text)
    → (is_none args.comm && is_none args.pid) ≡ false
    → Attached (record_config {Seed = Seed} args listen db) db
unfolding record_config
record_config-Attached {Seed} args listen db g = record {
  target = attached args.comm args.pid g;
  stdio = refl;
  enabled = record_config-enabled Seed args listen db;
  saved = refl;
}

-- A record that starts a trace starts one that is attached.
abbrev pub TracesAttached : {Seed : Type 0} → Result (Started Seed) → Type 0
TracesAttached (err e) = Unit
TracesAttached (ok (exec_command command binary db server listen port quiet)) = Unit
TracesAttached (ok (trace_with cfg db)) = Attached cfg db

-- A trace that a record starts has a process or a command name to attach to, reads the standard
-- streams exactly when it has a process, passes the check that some monitoring is enabled, and saves
-- to the database that is summarised afterwards.
pub run_record-Attached :
    (Seed : Type 0) (configured : Option Text → Option Text) (session : Option Text) (listen : Text)
    (args : RecordArgs)
    → TracesAttached (run_record {Seed = Seed} configured session listen args)
unfolding run_record
run_record-Attached Seed configured session listen args =
    elim (Bool-cases (is_empty args.command)) [
      | inl t ↦ elim (Bool-cases (is_none args.comm && is_none args.pid)) [
        | inl u ↦ rw (t, u) tt
        | inr g ↦
            rw (t, g)
              (record_config-Attached args listen (or_option (configured args.db) session) g)
      ]
      | inr f ↦ elim (Bool-cases (is_some args.comm || is_some args.pid)) [
        | inl u ↦ rw (f, u) tt
        | inr g ↦ rw (f, g) tt
      ]
    ]
