-- ===== src/Cli/Report.antt =====
-- overlay/collector/src/main.rs: what a report reads. The session databases and the queries belong
-- to other crates: `latest` is the newest saved session, and a query is the request handed to it.
pub mod Source
use memguard_agent.Base.{ℕ, Bool, Option, none, some, if◌then◌else◌, or_option}
use memguard_agent.Text.{Text}

-- `ReportCommands`, each with its own `db` where it has one.
pub data ReportCommands : Type 0 where
  summary : Option Text → Bool → ReportCommands
  token : Option Text → Text → Bool → ReportCommands
  audit : Option Text → Option Text → ℕ → Bool → ReportCommands
  prompts : Option Text → ℕ → Bool → ReportCommands
  export : Option Text → Text → ℕ → ReportCommands
  serve : Option Text → ℕ → ReportCommands
  list : ReportCommands

-- The function a report calls, with its arguments. The first is the database: none stands for the
-- agents' own sessions.
pub data Query : Type 0 where
  run_db_summary : Option Text → Query
  run_token_query : Option Text → Text → Bool → Query
  run_audit_query : Option Text → Option Text → ℕ → Bool → Query
  run_prompts_query : Option Text → ℕ → Bool → Query
  run_export : Option Text → Text → ℕ → Query
  run_report_serve : Option Text → Text → ℕ → Query
  run_db_list : Query

unfoldable pub report_db_or_local : Option Text → Option Text → Bool → Option Text
report_db_or_local latest db force_local = if force_local then none else or_option db latest

unfoldable pub run_report : Option Text → Option Text → Bool → Option ReportCommands → Text → Query
unfolding report_db_or_local
run_report latest db local none listen = run_db_summary (report_db_or_local latest db local)
run_report latest db local (some (summary own own_local)) listen =
    run_db_summary (report_db_or_local latest own own_local)
run_report latest db local (some (token own group_by json)) listen =
    run_token_query (report_db_or_local latest (or_option own db) local) group_by json
run_report latest db local (some (audit own audit_type limit json)) listen =
    run_audit_query (report_db_or_local latest (or_option own db) local) audit_type limit json
run_report latest db local (some (prompts own limit json)) listen =
    run_prompts_query (report_db_or_local latest (or_option own db) local) limit json
run_report latest db local (some (export own output audit_limit)) listen =
    run_export (report_db_or_local latest (or_option own db) local) output audit_limit
run_report latest db local (some (serve own server_port)) listen =
    run_report_serve (report_db_or_local latest (or_option own db) local) listen server_port
run_report latest db local (some list) listen = run_db_list
