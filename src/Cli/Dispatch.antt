-- ===== src/Cli/Dispatch.antt =====
-- overlay/collector/src/main.rs: what each command runs, and the status that the process exits with.
pub mod Failing
pub mod Summary
mod Tests
use memguard_agent.Base.{
  ℕ, Bool, true, false, not, Option, none, some, List, [], ◌∷◌, ◌++◌, if◌then◌else◌,
}
use memguard_agent.Base.Result.{Result, ok, err}
use memguard_agent.Cli.Commands.{
  TopArgs, install_service, Others, Commands, vis, bind, bridge, top, monitor, record_command,
  report, debug, Cli,
}
use memguard_agent.Cli.Record.{Started, exec_command, trace_with, run_record}
use memguard_agent.Cli.Report.{Query, run_report_serve, run_report}
use memguard_agent.Cli.{top_uses_tui}
use memguard_agent.Json.{Json}
use memguard_agent.Text.{Text}
use memguard_agent.Trace.Agent.{Outside, TraceAgent}
use memguard_agent.Trace.Drive.{Turn}
use memguard_agent.Trace.Server.{Web, start_web_server_if_enabled}
use memguard_agent.Trace.Session.{run_trace}

-- What a run does beside what its parts do, in order.
pub data Act : Type 0 where
  signal_handler : Bool → Act
  capture_started : Act
  capture_stopped : Act
  session_summary : Text → Act

-- What a run returns, or `none` where it still waits; and what it has done.
pub record Ran : Type 0 where
  pub result : Option (Result (Unit {0}))
  pub acts : List Act

abbrev pub first_does : List Act → Ran → Ran
first_does acts ran = record ran { acts = acts ++ ran.acts }

abbrev pub returns : Result (Unit {0}) → Ran
returns r = record { result = some r; acts = [] }

-- `if let Some(db) = summary_db { print_session_summary(db) }`
abbrev pub summary_of : Option Text → List Act
summary_of none = []
summary_of (some db) = session_summary db ∷ []

-- The end of a record whose trace has returned that.
abbrev pub after_trace : Option Text → Option (Result (Unit {0})) → Ran
after_trace db none = record { result = none; acts = [] }
after_trace db (some (err e)) = returns (err e)
after_trace db (some (ok done)) = record { result = some (ok tt); acts = summary_of db }

-- `.ok()`
abbrev pub ok_option : {A : Type 0} → Result A → Option A
ok_option (ok a) = some a
ok_option (err e) = none

-- `run_report_serve`: `shut_down` is whether the shutdown it waits for comes.
unfoldable pub serve_report : Web → Bool → Option Text → Text → ℕ → Option (Result (Unit {0}))
unfolding start_web_server_if_enabled
serve_report web shut_down db listen port =
    elim (start_web_server_if_enabled web true listen port db) [
      | err e ↦ some (err e)
      | ok server ↦ if shut_down then some (ok tt) else none
    ]

unfoldable pub exit_status : Option (Result (Unit {0})) → Option ℕ
exit_status none = none
exit_status (some (ok done)) = some 0
exit_status (some (err e)) = some 1

module _ (J : Json) (web : Web) (others : Others) where
  open others use {Seed}

  abbrev pub is_vis : Commands others → Bool
  is_vis (vis path outputs global rate) = true
  is_vis (bind args) = false
  is_vis bridge = false
  is_vis (top args) = false
  is_vis (monitor command) = false
  is_vis (record_command args) = false
  is_vis (report db local sub) = false
  is_vis (debug cli) = false

  unfoldable pub command_uses_top_tui : Commands others → Bool
  unfolding top_uses_tui
  command_uses_top_tui (top args) = top_uses_tui args.plain others.interactive_terminal_available
  command_uses_top_tui (vis path outputs global rate) = false
  command_uses_top_tui (bind args) = false
  command_uses_top_tui bridge = false
  command_uses_top_tui (monitor command) = false
  command_uses_top_tui (record_command args) = false
  command_uses_top_tui (report db local sub) = false
  command_uses_top_tui (debug cli) = false

  unfoldable pub run_top : TopArgs → Ran
  unfolding top_uses_tui
  run_top args =
      let capture = others.start_live_ebpf_capture args.options in
      let count = if args.once then some 1 else args.count in
      let result =
        if top_uses_tui args.plain others.interactive_terminal_available
        then others.run_live_top_tui capture args.interval args.limit count args.options
        else others.run_live_top_query capture args.interval args.limit count args.options in
      record { result = some result; acts = capture_started ∷ capture_stopped ∷ [] }

  abbrev pub run_asked : Bool → Query → Option (Result (Unit {0}))
  run_asked shut_down (run_report_serve db listen port) = serve_report web shut_down db listen port
  run_asked shut_down query = some (others.run_query query)

  module _ (agent_run : TraceAgent Seed → Result (List (Turn J))) where
    abbrev pub run_started : Outside → Result (Started Seed) → Ran
    run_started outside (err e) = returns (err e)
    run_started outside (ok (exec_command command binary db server listen port quiet)) =
        returns (others.run_exec (exec_command command binary db server listen port quiet))
    run_started outside (ok (trace_with cfg db)) =
        after_trace db (run_trace others.resolvers J web outside agent_run cfg).result

    -- The two commands that `run` leaves to it. The others do not come here: the code has `unreachable!`.
    unfoldable pub run_with_extractor : Outside → Text → Commands others → Ran
    unfolding run_record run_trace
    run_with_extractor outside listen (record_command args) = run_started outside (
        run_record others.configured_db_path (ok_option others.default_session_db_path) listen args)
    run_with_extractor outside listen (debug cli) = returns (others.run_debug outside cli listen)
    run_with_extractor outside listen other = record { result = none; acts = [] }

    abbrev pub with_extractor : Text → Commands others → Result Outside → Ran
    with_extractor listen command (err e) = returns (err e)
    with_extractor listen command (ok outside) = run_with_extractor outside listen command

    unfoldable pub run_command : Bool → Text → Commands others → Ran
    unfolding run_top run_report serve_report run_with_extractor
    run_command shut_down listen (vis path outputs global rate) =
        returns (others.run_vis path outputs global rate)
    run_command shut_down listen (bind args) =
        returns (others.run_bind args listen (others.configured_db_path args.db))
    run_command shut_down listen bridge = returns others.run_stdio_bridge
    run_command shut_down listen (report db local sub) = record {
      result = run_asked shut_down (run_report others.latest_session_db db local sub listen);
      acts = [];
    }
    run_command shut_down listen (monitor none) = returns others.run_monitor
    run_command shut_down listen (monitor (some install_service)) =
        returns others.install_monitor_service
    run_command shut_down listen (top args) = run_top args
    run_command shut_down listen (record_command args) =
        with_extractor listen (record_command args) others.binary_extractor
    run_command shut_down listen (debug cli) =
        with_extractor listen (debug cli) others.binary_extractor

    unfoldable pub run : Bool → Cli others → Ran
    unfolding run_command command_uses_top_tui
    run shut_down cli =
        first_does
          (if not (is_vis cli.command)
            then signal_handler (command_uses_top_tui cli.command) ∷ []
            else [])
          (run_command shut_down cli.listen cli.command)

    -- `main`: the status, where the process ends.
    unfoldable pub main : Bool → Cli others → Option ℕ
    unfolding run exit_status
    main shut_down cli = exit_status (run shut_down cli).result
