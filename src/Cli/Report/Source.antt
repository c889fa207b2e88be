-- ===== src/Cli/Report/Source.antt =====
-- A report reads the database that its own `--db` names.
use memguard_agent.Base.{◌≡◌, refl, Bool, Option, none, some, if◌then◌else◌}
use memguard_agent.Cli.Report.{
  ReportCommands, summary, token, audit, prompts, export, serve, list, Query, run_db_summary,
  run_token_query, run_audit_query, run_prompts_query, run_export, run_report_serve, run_db_list,
  report_db_or_local, run_report,
}
use memguard_agent.Text.{Text}

-- The database a query opens.
unfoldable pub opened : Query → Option Text
opened (run_db_summary db) = db
opened (run_token_query db group_by json) = db
opened (run_audit_query db audit_type limit json) = db
opened (run_prompts_query db limit json) = db
opened (run_export db output audit_limit) = db
opened (run_report_serve db listen server_port) = db
opened run_db_list = none

-- The `--db` that a subcommand has of its own.
unfoldable pub own_db : ReportCommands → Option Text
own_db (summary db local) = db
own_db (token db group_by json) = db
own_db (audit db audit_type limit json) = db
own_db (prompts db limit json) = db
own_db (export db output audit_limit) = db
own_db (serve db server_port) = db
own_db list = none

-- The `--local` that a subcommand obeys: a summary has one of its own.
unfoldable pub obeys_local : Bool → ReportCommands → Bool
obeys_local local (summary own own_local) = own_local
obeys_local local (token db group_by json) = local
obeys_local local (audit db audit_type limit json) = local
obeys_local local (prompts db limit json) = local
obeys_local local (export db output audit_limit) = local
obeys_local local (serve db server_port) = local
obeys_local local list = local

-- A subcommand that has a `--db` of its own opens it, whatever `--db` the report has and whatever
-- session was saved last, unless the `--local` it obeys sends it to the agents' own sessions.
pub run_report-own_db :
    (latest db : Option Text) (local : Bool) (c : ReportCommands) (listen own : Text)
    → own_db c ≡ some own
    → opened (run_report latest db local (some c) listen)
      ≡ (if obeys_local local c then none else some own)
unfolding run_report report_db_or_local opened own_db obeys_local
run_report-own_db latest db local (summary o l) listen own h = rw h refl
run_report-own_db latest db local (token o g j) listen own h = rw h refl
run_report-own_db latest db local (audit o t l j) listen own h = rw h refl
run_report-own_db latest db local (prompts o l j) listen own h = rw h refl
run_report-own_db latest db local (export o p l) listen own h = rw h refl
run_report-own_db latest db local (serve o p) listen own h = rw h refl
run_report-own_db latest db local list listen own h = cc
